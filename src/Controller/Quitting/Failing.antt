-- ===== src/Controller/Quitting/Failing.antt =====
-- `quit` where no module's `die` returns, as with the modules that have a server.
use qt_sss_shttps.Common.{◌≡◌, refl, ap, ◌∙◌, true, none, List, [], ◌∷◌, All, All-map, subst}
use qt_sss_shttps.Text.{Text}
use qt_sss_shttps.Hash.{has_key, lookup_of_key, lookup-All}
use qt_sss_shttps.Controller.{
  ModuleClass, stopped_all, finished_all, Controller, null_pointer, leaves, and_then, report,
  take_out, kill_one, kill_each, kill_modules, stop_modules, quit,
}
use qt_sss_shttps.Controller.Tables.{has_key_by_keys}
use qt_sss_shttps.Controller.Loading.{IsWellFormed}
use qt_sss_shttps.Controller.Quitting.{IsKept, stop_each-AreStopped}
use qt_sss_shttps.Controller.Quitting.Ended.{uids-present}

module _ {M : Type 0} (k : ModuleClass M) (P : M → Type 0) (keeps : IsKept k P)
    (fatal : (m : M) → P m → k.die m ≡ none) where
  kill_one-fails :
      (uid : Text) (c : Controller M)
      → has_key uid c.modules ≡ true
      → All (λ e. P e.1) c.modules
      → kill_one k uid c ≡ null_pointer
  unfolding kill_one take_out
  kill_one-fails uid c h a =
      let (m, found) = lookup_of_key uid c.modules h in
      rw (found, kill_one) (rw (fatal m (lookup-All P uid c.modules m a found), take_out) refl)

  kill_each-fails :
      (uid : Text) (uids : List Text) (c : Controller M)
      → All (λ u. has_key u c.modules ≡ true) (uid ∷ uids)
      → All (λ e. P e.1) c.modules
      → kill_each k (uid ∷ uids) c ≡ null_pointer
  unfolding kill_each and_then
  kill_each-fails uid [] c (h, hs) a = kill_one-fails uid c h a
  kill_each-fails uid (u ∷ uids) c (h, hs) a =
      ap (λ o. and_then o (kill_one k uid)) (kill_each-fails u uids c hs a)

  kill_modules-fails :
      (uid : Text) (uids : List Text) (c : Controller M)
      → c.uids ≡ uid ∷ uids
      → All (λ u. has_key u c.modules ≡ true) (uid ∷ uids)
      → All (λ e. P e.1) c.modules
      → kill_modules k c ≡ null_pointer
  unfolding kill_modules and_then
  kill_modules-fails uid uids c e h a =
      ap (λ o. and_then o (λ d. leaves (record d { uids = []; modules = [] })))
        (ap (λ t. kill_each k t c) e ∙ kill_each-fails uid uids c h a)

  -- Where the modules have a property that stop keeps, and under which die does not return: the
  -- quit of a well-formed controller with a module goes through a null pointer.
  pub quit-fails :
      (uid : Text) (uids : List Text) (c : Controller M)
      → c.uids ≡ uid ∷ uids
      → IsWellFormed k c
      → All (λ e. P e.1) c.modules
      → quit k c ≡ null_pointer
  unfolding quit stop_modules and_then report
  quit-fails uid uids c e w a =
      let s = stop_each-AreStopped k P keeps c.uids c (uids-present k c w) a in
      let there =
        All-map _ _ c.uids (λ u. λ h. has_key_by_keys u s.after.modules c.modules s.same_keys h)
          (uids-present k c w) in
      ap
        (λ o.
          and_then (and_then o (λ d. leaves (report stopped_all d)))
            (λ d. and_then (kill_modules k d) (λ x. leaves (report finished_all x))))
        s.returns
      ∙ ap (λ o. and_then o (λ x. leaves (report finished_all x)))
          (kill_modules-fails uid uids (report stopped_all s.after) (s.same_uids ∙ e)
            (subst (λ t. All (λ u. has_key u s.after.modules ≡ true) t) e there) s.all_steady)
