-- ===== src/Controller/Starting.antt =====
-- `run` of AppController.cpp: the modules are made, initialised and started, in their order.
pub mod Lived
use qt_sss_shttps.Common.{
  ◌≡◌, refl, ap, ◌∙◌, sym, Bool, true, false, ◌||◌, Option, none, some, List, [], ◌∷◌, All, arith,
  Bool-cases, inl, inr, if-both, if◌then◌else◌,
}
use qt_sss_shttps.Text.{Text, text_eq, contains}
use qt_sss_shttps.Hash.{Hash, lookup, insert, keys, has_key, lookup_of_key, keys-insert}
use qt_sss_shttps.Conf.Settings.{module_uid}
use qt_sss_shttps.Module.{is_active_module}
use qt_sss_shttps.Controller.{
  ModuleClass, Entry, initialized, started, Controller, Outcome, leaves, and_then, report, put,
  call, init_each, start_one, start_each,
}
use qt_sss_shttps.Controller.Loading.{has_key-contains}
use qt_sss_shttps.Controller.Tables.{Every, Every-insert, has_key_by_keys}

module _ {M : Type 0} where
  -- Calls that return and leave the same modules under the same names, with what then holds of
  -- them.
  pub record Passes (S : Text → M → Type 0) (c : Controller M) (o : Outcome M) : Type 0 where
    pub after : Controller M
    pub returns : o ≡ leaves after
    pub same_uids : after.uids ≡ c.uids
    pub same_keys : keys after.modules ≡ keys c.modules
    pub every : Every S after.modules

  pub Passes-then :
      (R S : Text → M → Type 0) (c : Controller M) (o : Outcome M) (f : Controller M → Outcome M)
      → Passes R c o
      → ((d : Controller M)
          → keys d.modules ≡ keys c.modules
          → Every R d.modules
          → Passes S d (f d))
      → Passes S c (and_then o f)
  unfolding and_then
  Passes-then R S c o f p g =
      let q = g p.after p.same_keys p.every in
      record {
        after = q.after;
        returns = ap (λ x. and_then x f) p.returns ∙ q.returns;
        same_uids = q.same_uids ∙ p.same_uids;
        same_keys = q.same_keys ∙ p.same_keys;
        every = q.every;
      }

  -- The report at the end of a loop.
  pub Passes-report :
      (S : Text → M → Type 0) (c : Controller M) (o : Outcome M) (entry : Entry)
      → Passes S c o
      → Passes S c (and_then o (λ d. leaves (report entry d)))
  unfolding report
  Passes-report S c o entry p =
      Passes-then S S c o (λ d. leaves (report entry d)) p
        (λ d k e. record {
          after = report entry d;
          returns = refl;
          same_uids = refl;
          same_keys = refl;
          every = e;
        })

  put-Passes :
      (k : ModuleClass M) (R S : Text → M → Type 0) (uid : Text) (entry : Entry) (o : Option M)
      (n : M) (c : Controller M)
      → o ≡ some n
      → S uid n
      → ((other : Text) (m : M) → text_eq uid other ≡ false → R other m → S other m)
      → has_key uid c.modules ≡ true
      → Every R c.modules
      → Passes S c (put k uid entry o c)
  unfolding put report
  put-Passes k R S uid entry o n c f s l h e = record {
    after = report entry (record c { modules = insert uid n c.modules });
    returns = rw (f, put) refl;
    same_uids = refl;
    same_keys = keys-insert uid n c.modules h;
    every = Every-insert R S uid n c.modules s l e;
  }

  pub All-has_key :
      (uids : List Text) (g h : Hash M)
      → keys g ≡ keys h
      → All (λ uid. has_key uid h ≡ true) uids
      → All (λ uid. has_key uid g ≡ true) uids
  All-has_key [] g h e a = tt
  All-has_key (uid ∷ uids) g h e (n, a) = (has_key_by_keys uid g h e n, All-has_key uids g h e a)

  -- A property that all new modules have, and one that init brings about and start keeps; both
  -- return and keep the name.
  pub record IsReady (k : ModuleClass M) (Q P : M → Type 0) : Type 0 where
    pub weakens : (m : M) → P m → Q m
    pub inits :
        (m : M)
        → Q m
        → (n : M) × ((k.init m ≡ some n)
            × (P n × (module_uid (k.conf_of n) ≡ module_uid (k.conf_of m))))
    pub starts :
        (m : M)
        → P m
        → (n : M) × ((k.start m ≡ some n)
            × (P n × (module_uid (k.conf_of n) ≡ module_uid (k.conf_of m))))

  module _ (k : ModuleClass M) (Q P : M → Type 0) (ready : IsReady k Q P) where
    -- A module that has its name, and is initialised where it is done.
    abbrev pub IsDone : (Text → Bool) → Text → M → Type 0
    IsDone done uid m = (module_uid (k.conf_of m) ≡ uid) × (Q m × (done uid ≡ true → P m))

    -- A module that has its name and is initialised.
    abbrev pub IsUp : Text → M → Type 0
    IsUp uid m = (module_uid (k.conf_of m) ≡ uid) × P m

    init_one-Passes :
        (done : Text → Bool) (uid : Text) (c : Controller M)
        → has_key uid c.modules ≡ true
        → Every (IsDone done) c.modules
        → Passes (IsDone (λ u. done u || text_eq uid u)) c (call k k.init initialized uid c)
    unfolding call
    init_one-Passes done uid c h e =
        let (m, found) = lookup_of_key uid c.modules h in
        let (name, (q, p)) = e uid m found in
        let (n, (f, (r, same))) = ready.inits m q in
        rw (found, call)
          (put-Passes k (IsDone done) _ uid (initialized uid) (k.init m) n c f
            (same ∙ name, (ready.weakens n r, λ d. r))
            (λ other o g (i, (j, l)). (i, (j, λ d. l (ground (arith, d, g))))) h e)

    pub init_each-Passes :
        (done : Text → Bool) (uids : List Text) (c : Controller M)
        → All (λ uid. has_key uid c.modules ≡ true) uids
        → Every (IsDone done) c.modules
        → Passes (IsDone (λ u. done u || contains uids u)) c (init_each k uids c)
    unfolding init_each contains
    init_each-Passes done [] c a e = record {
      after = c;
      returns = refl;
      same_uids = refl;
      same_keys = refl;
      every = λ uid m f. let (i, (j, l)) = e uid m f in (i, (j, λ d. l (ground (arith, d))));
    }
    init_each-Passes done (uid ∷ uids) c (h, a) e =
        Passes-then (IsDone (λ u. done u || text_eq uid u)) _ c _ (init_each k uids)
          (init_one-Passes done uid c h e)
          (λ d s f.
            let p =
              init_each-Passes (λ u. done u || text_eq uid u) uids d (All-has_key uids _ _ s a) f in
            record {
              after = p.after;
              returns = p.returns;
              same_uids = p.same_uids;
              same_keys = p.same_keys;
              every =
                  λ u m g. let (i, (j, l)) = p.every u m g in (i, (j, λ b. l (ground (arith, b))));
            })

    start_one-Passes :
        (uid : Text) (c : Controller M)
        → has_key uid c.modules ≡ true
        → Every IsUp c.modules
        → Passes IsUp c (start_one k uid c)
    unfolding start_one
    start_one-Passes uid c h e =
        let (m, found) = lookup_of_key uid c.modules h in
        let (name, p) = e uid m found in
        let (n, (f, (r, same))) = ready.starts m p in
        rw (found, start_one)
          (if-both (Passes IsUp c) (is_active_module (k.conf_of m)) _ _
            (put-Passes k IsUp IsUp uid (started uid) (k.start m) n c f (same ∙ name, r)
              (λ other o g i. i) h e)
            (record { after = c; returns = refl; same_uids = refl; same_keys = refl; every = e }))

    pub start_each-Passes :
        (uids : List Text) (c : Controller M)
        → All (λ uid. has_key uid c.modules ≡ true) uids
        → Every IsUp c.modules
        → Passes IsUp c (start_each k uids c)
    unfolding start_each
    start_each-Passes [] c a e = record {
      after = c;
      returns = refl;
      same_uids = refl;
      same_keys = refl;
      every = e;
    }
    start_each-Passes (uid ∷ uids) c (h, a) e =
        Passes-then IsUp IsUp c _ (start_each k uids) (start_one-Passes uid c h e)
          (λ d s f. start_each-Passes uids d (All-has_key uids _ _ s a) f)
