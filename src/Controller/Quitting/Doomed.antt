-- ===== src/Controller/Quitting/Doomed.antt =====
-- `quit` of an application of which one module can not die.
use qt_sss_shttps.Common.{
  ◌≡◌, refl, ap, ◌∙◌, sym, ◌⊎◌, inl, inr, true, none, some, List, [], ◌∷◌, All, if-both, arith,
  Bool-cases, Option-cases, subst,
}
use qt_sss_shttps.Text.{Text, text_eq, contains}
use qt_sss_shttps.Text.Laws.{text_eq_iff}
use qt_sss_shttps.Hash.{Hash, lookup, insert, remove, keys-insert, lookup-has_key}
use qt_sss_shttps.Controller.{
  ModuleClass, stopped, killed, stopped_all, finished_all, Controller, Outcome, null_pointer,
  leaves, and_then, report, put, call, stop_each, stop_modules, take_out, kill_one, kill_each,
  kill_modules, quit,
}
use qt_sss_shttps.Controller.Loading.{Distinct, IsWellFormed}
use qt_sss_shttps.Controller.Tables.{Every, Every-insert, Every-All, All-Every}
use qt_sss_shttps.Controller.Starting.{Passes}

-- What holds of each name and its module: `stop` keeps it where it returns, and under the name of
-- one module `die` does not return.
pub record IsDoomed {M : Type 0} (k : ModuleClass M) (R : Text → M → Type 0) (fatal : Text)
    : Type 0 where
  pub stops :
      (uid : Text) (m : M)
      → R uid m
      → (k.stop m ≡ none) ⊎ ((n : M) × ((k.stop m ≡ some n) × R uid n))
  pub fails : (m : M) → R fatal m → k.die m ≡ none

module _ {M : Type 0} (k : ModuleClass M) (R : Text → M → Type 0) (fatal : Text)
    (doomed : IsDoomed k R fatal) where
  -- The outcome is a call through a null pointer, or a controller with that property.
  abbrev Ruins : Controller M → Outcome M → Type 0
  Ruins c o = (o ≡ null_pointer) ⊎ Passes R c o

  stop_one-Ruins :
      (uid : Text) (c : Controller M) → Every R c.modules → Ruins c (call k k.stop stopped uid c)
  unfolding call put report
  stop_one-Ruins uid c a = elim (Option-cases (lookup uid c.modules)) [
    | inl e ↦ inl (rw (e, call) refl)
    | inr (m, e) ↦ elim (doomed.stops uid m (a uid m e)) [
      | inl f ↦ inl (rw (e, call) (rw (f, put) refl))
      | inr (n, (f, r)) ↦ inr (record {
        after = report (stopped uid) (record c { modules = insert uid n c.modules });
        returns = rw (e, call) (rw (f, put) refl);
        same_uids = refl;
        same_keys = keys-insert uid n c.modules (lookup-has_key uid c.modules m e);
        every = Every-insert R R uid n c.modules r (λ other o g i. i) a;
      })
    ]
  ]

  stop_each-Ruins :
      (uids : List Text) (c : Controller M) → Every R c.modules → Ruins c (stop_each k uids c)
  unfolding stop_each and_then
  stop_each-Ruins [] c a =
      inr (record { after = c; returns = refl; same_uids = refl; same_keys = refl; every = a })
  stop_each-Ruins (uid ∷ uids) c a = elim (stop_each-Ruins uids c a) [
    | inl e ↦ inl (ap (λ o. and_then o (call k k.stop stopped uid)) e)
    | inr p ↦ elim (stop_one-Ruins uid p.after p.every) [
      | inl f ↦ inl (ap (λ o. and_then o (call k k.stop stopped uid)) p.returns ∙ f)
      | inr s ↦ inr (record {
        after = s.after;
        returns = ap (λ o. and_then o (call k k.stop stopped uid)) p.returns ∙ s.returns;
        same_uids = s.same_uids ∙ p.same_uids;
        same_keys = s.same_keys ∙ p.same_keys;
        every = s.every;
      })
    ]
  ]

  -- The entries of a table.
  abbrev Holds : Hash M → Type 0
  Holds h = All (λ e. R e.0 e.1) h

  remove-Holds : (uid : Text) (h : Hash M) → Holds h → Holds (remove uid h)
  unfolding remove
  remove-Holds uid [] a = tt
  remove-Holds uid ((j, w) ∷ h) (r, a) =
      if-both Holds (text_eq j uid) _ _ a (r, remove-Holds uid h a)

  -- The outcome of some kills.
  abbrev Leaves : Outcome M → Type 0
  Leaves o = (o ≡ null_pointer) ⊎ ((d : Controller M) × ((o ≡ leaves d) × Holds d.modules))

  kill_one-Leaves : (uid : Text) (c : Controller M) → Holds c.modules → Leaves (kill_one k uid c)
  unfolding kill_one take_out report
  kill_one-Leaves uid c a = elim (Option-cases (lookup uid c.modules)) [
    | inl e ↦ inl (rw (e, kill_one) refl)
    | inr (m, e) ↦ elim (Option-cases (k.die m)) [
      | inl f ↦ inl (rw (e, kill_one) (rw (f, take_out) refl))
      | inr (n, f) ↦ inr (
        report (killed uid) (record c { modules = remove uid c.modules }),
        (rw (e, kill_one) (rw (f, take_out) refl), remove-Holds uid c.modules a),
      )
    ]
  ]

  kill_each-Leaves :
      (uids : List Text) (c : Controller M) → Holds c.modules → Leaves (kill_each k uids c)
  unfolding kill_each and_then
  kill_each-Leaves [] c a = inr (c, (refl, a))
  kill_each-Leaves (uid ∷ uids) c a = elim (kill_each-Leaves uids c a) [
    | inl e ↦ inl (ap (λ o. and_then o (kill_one k uid)) e)
    | inr (d, (e, b)) ↦
        subst Leaves (sym (ap (λ o. and_then o (kill_one k uid)) e)) (kill_one-Leaves uid d b)
  ]

  kill_one-fatal : (c : Controller M) → Holds c.modules → kill_one k fatal c ≡ null_pointer
  unfolding kill_one take_out
  kill_one-fatal c a = elim (Option-cases (lookup fatal c.modules)) [
    | inl e ↦ rw (e, kill_one) refl
    | inr (m, e) ↦
        rw (e, kill_one) (rw (doomed.fails m (All-Every R c.modules a fatal m e), take_out) refl)
  ]

  kill_each-fatal :
      (uids : List Text) (c : Controller M)
      → contains uids fatal ≡ true
      → Holds c.modules
      → kill_each k uids c ≡ null_pointer
  unfolding kill_each contains and_then
  kill_each-fatal [] c e a = absurd (cc e)
  kill_each-fatal (uid ∷ uids) c e a = elim (Bool-cases (text_eq uid fatal)) [
    | inl f ↦ elim (kill_each-Leaves uids c a) [
      | inl g ↦ ap (λ o. and_then o (kill_one k uid)) g
      | inr (d, (g, b)) ↦
          ap (λ o. and_then o (kill_one k uid)) g
          ∙ (ap (λ u. kill_one k u d) ((text_eq_iff uid fatal).0 f) ∙ kill_one-fatal d b)
    ]
    | inr f ↦
        ap (λ o. and_then o (kill_one k uid)) (kill_each-fatal uids c (ground (arith, e, f)) a)
  ]

  -- Where each module has a property that stop keeps where it returns, and under which the module of
  -- one name does not die: the quit of a well-formed controller with that name goes through a null
  -- pointer.
  pub quit-doomed :
      (c : Controller M)
      → IsWellFormed k c
      → contains c.uids fatal ≡ true
      → Every R c.modules
      → quit k c ≡ null_pointer
  unfolding quit stop_modules kill_modules and_then report
  quit-doomed c w h a = elim (stop_each-Ruins c.uids c a) [
    | inl e ↦
        ap
          (λ o.
            and_then (and_then o (λ d. leaves (report stopped_all d)))
              (λ d. and_then (kill_modules k d) (λ x. leaves (report finished_all x))))
          e
    | inr p ↦
        ap
          (λ o.
            and_then (and_then o (λ d. leaves (report stopped_all d)))
              (λ d. and_then (kill_modules k d) (λ x. leaves (report finished_all x))))
          p.returns
        ∙ ap
            (λ o.
              and_then (and_then o (λ d. leaves (record d { uids = []; modules = [] })))
                (λ x. leaves (report finished_all x)))
            (kill_each-fatal p.after.uids (report stopped_all p.after)
              (ap (λ t. contains t fatal) p.same_uids ∙ h)
              (Every-All R p.after.modules (subst Distinct (sym (p.same_keys ∙ w.same)) w.distinct)
                p.every))
  ]
