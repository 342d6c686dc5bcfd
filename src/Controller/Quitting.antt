-- ===== src/Controller/Quitting.antt =====
-- `quit`, with `stopModules` and `killModules`: from the last module to the first, and to the end.
pub mod Ended
pub mod Failing
pub mod Doomed
use qt_sss_shttps.Common.{
  ◌≡◌, refl, ap, ◌∙◌, sym, Bool, true, false, Option, none, some, List, [], ◌∷◌, ◌++◌, append_assoc,
  append-nil, All, map, arith, subst,
}
use qt_sss_shttps.Text.{Text, text_eq, contains}
use qt_sss_shttps.Text.Laws.{text_eq_symm, text_eq_self}
use qt_sss_shttps.Hash.{
  Hash, lookup, insert, remove, keys, has_key, lookup_of_key, lookup-All, insert-All, remove-All,
  keys-insert, has_key-remove,
}
use qt_sss_shttps.Controller.{
  ModuleClass, Entry, stopped, killed, stopped_all, finished_all, Controller, Outcome, leaves,
  and_then, report, put, call, stop_each, stop_modules, take_out, kill_one, kill_each, kill_modules,
  quit,
}
use qt_sss_shttps.Controller.Tables.{has_key_by_keys}
use qt_sss_shttps.Controller.Loading.{Distinct, IsWellFormed, has_key-contains}

-- A property of the modules under which `stop` returns and keeps it.
pub record IsKept {M : Type 0} (k : ModuleClass M) (P : M → Type 0) : Type 0 where
  pub stops : (m : M) → P m → (n : M) × ((k.stop m ≡ some n) × P n)

-- And under which `die` returns as well.
pub record IsSteady {M : Type 0} (k : ModuleClass M) (P : M → Type 0) : Type 0 where
  pub keeps : IsKept k P
  pub dies : (m : M) → P m → (n : M) × (k.die m ≡ some n)

abbrev pub last_first : List Text → List Text
last_first [] = []
last_first (uid ∷ uids) = last_first uids ++ (uid ∷ [])

-- What is reported while the application quits.
abbrev pub farewell : List Text → List Entry
farewell uids =
    map stopped (last_first uids)
    ++ (stopped_all ∷ (map killed (last_first uids) ++ (finished_all ∷ [])))

map-last :
    (entry : Text → Entry) (uids : List Text) (uid : Text)
    → map entry (uids ++ (uid ∷ [])) ≡ map entry uids ++ (entry uid ∷ [])
map-last entry [] uid = refl
map-last entry (u ∷ uids) uid = ap (λ t. entry u ∷ t) (map-last entry uids uid)

-- One more entry after those of the later modules.
journal-step :
    (entry : Text → Entry) (before : List Entry) (uid : Text) (uids : List Text)
    (after : List Entry)
    → after ≡ before ++ map entry (last_first uids)
    → after ++ (entry uid ∷ []) ≡ before ++ map entry (last_first (uid ∷ uids))
journal-step entry before uid uids after e =
    ap (λ t. t ++ (entry uid ∷ [])) e
    ∙ append_assoc before (map entry (last_first uids)) (entry uid ∷ [])
    ∙ ap (λ t. before ++ t) (sym (map-last entry (last_first uids) uid))

module _ {M : Type 0} (k : ModuleClass M) where
  call-some :
      (method : M → Option M) (entry : Text → Entry) (uid : Text) (c : Controller M) (m n : M)
      → lookup uid c.modules ≡ some m
      → method m ≡ some n
      → call k method entry uid c
        ≡ leaves (report (entry uid) (record c { modules = insert uid n c.modules }))
  unfolding call put
  call-some method entry uid c m n e f = rw (e, call) (rw (f, put) refl)

  kill_one-some :
      (uid : Text) (c : Controller M) (m n : M)
      → lookup uid c.modules ≡ some m
      → k.die m ≡ some n
      → kill_one k uid c
        ≡ leaves (report (killed uid) (record c { modules = remove uid c.modules }))
  unfolding kill_one take_out
  kill_one-some uid c m n e f = rw (e, kill_one) (rw (f, take_out) refl)

  module _ (P : M → Type 0) (keeps : IsKept k P) where
    -- The controller after those modules were stopped.
    pub record AreStopped (uids : List Text) (c : Controller M) : Type 0 where
      pub after : Controller M
      pub returns : stop_each k uids c ≡ leaves after
      pub same_uids : after.uids ≡ c.uids
      pub same_keys : keys after.modules ≡ keys c.modules
      pub all_steady : All (λ e. P e.1) after.modules
      pub reported : after.journal ≡ c.journal ++ map stopped (last_first uids)

    call_stop :
        (uid : Text) (uids : List Text) (c : Controller M)
        → has_key uid c.modules ≡ true
        → AreStopped uids c
        → AreStopped (uid ∷ uids) c
    unfolding stop_each and_then report
    call_stop uid uids c h s =
        let there = has_key_by_keys uid s.after.modules c.modules s.same_keys h in
        let (m, found) = lookup_of_key uid s.after.modules there in
        let (n, (stop, kept)) =
          keeps.stops m (lookup-All P uid s.after.modules m s.all_steady found) in
        record {
          after = report (stopped uid) (record s.after { modules = insert uid n s.after.modules });
          returns =
              ap (λ o. and_then o (call k k.stop stopped uid)) s.returns
              ∙ call-some k.stop stopped uid s.after m n found stop;
          same_uids = s.same_uids;
          same_keys = keys-insert uid n s.after.modules there ∙ s.same_keys;
          all_steady = insert-All P uid n s.after.modules kept s.all_steady;
          reported = journal-step stopped c.journal uid uids s.after.journal s.reported;
        }

    pub stop_each-AreStopped :
        (uids : List Text) (c : Controller M)
        → All (λ uid. has_key uid c.modules ≡ true) uids
        → All (λ e. P e.1) c.modules
        → AreStopped uids c
    unfolding stop_each
    stop_each-AreStopped [] c h a = record {
      after = c;
      returns = refl;
      same_uids = refl;
      same_keys = refl;
      all_steady = a;
      reported = sym (append-nil c.journal);
    }
    stop_each-AreStopped (uid ∷ uids) c (h, hs) a =
        call_stop uid uids c h (stop_each-AreStopped uids c hs a)

  module _ (P : M → Type 0) (steady : IsSteady k P) where
    -- The controller after those modules were killed.
    pub record AreKilled (uids : List Text) (c : Controller M) : Type 0 where
      pub after : Controller M
      pub returns : kill_each k uids c ≡ leaves after
      pub others :
          (other : Text)
          → contains uids other ≡ false
          → has_key other after.modules ≡ has_key other c.modules
      pub all_steady : All (λ e. P e.1) after.modules
      pub reported : after.journal ≡ c.journal ++ map killed (last_first uids)

    kill_next :
        (uid : Text) (uids : List Text) (c : Controller M)
        → has_key uid c.modules ≡ true
        → contains uids uid ≡ false
        → AreKilled uids c
        → AreKilled (uid ∷ uids) c
    unfolding kill_each and_then report contains
    kill_next uid uids c h d s =
        let (m, found) = lookup_of_key uid s.after.modules (s.others uid d ∙ h) in
        let (n, dead) = steady.dies m (lookup-All P uid s.after.modules m s.all_steady found) in
        record {
          after = report (killed uid) (record s.after { modules = remove uid s.after.modules });
          returns =
              ap (λ o. and_then o (kill_one k uid)) s.returns
              ∙ kill_one-some uid s.after m n found dead;
          others = λ other. λ e.
              has_key-remove uid other s.after.modules (ground (arith, e))
              ∙ s.others other (ground (arith, e));
          all_steady = remove-All P uid s.after.modules s.all_steady;
          reported = journal-step killed c.journal uid uids s.after.journal s.reported;
        }

    pub kill_each-AreKilled :
        (uids : List Text) (c : Controller M)
        → Distinct uids
        → All (λ uid. has_key uid c.modules ≡ true) uids
        → All (λ e. P e.1) c.modules
        → AreKilled uids c
    unfolding kill_each
    kill_each-AreKilled [] c d h a = record {
      after = c;
      returns = refl;
      others = λ other. λ e. refl;
      all_steady = a;
      reported = sym (append-nil c.journal);
    }
    kill_each-AreKilled (uid ∷ uids) c (e, d) (h, hs) a =
        kill_next uid uids c h e (kill_each-AreKilled uids c d hs a)
