-- ===== src/Controller/Quitting/Ended.antt =====
-- `quit` of a well-formed controller.
use qt_sss_shttps.Common.{
  ◌≡◌, refl, ap, ◌∙◌, true, List, [], ◌∷◌, ◌++◌, append_assoc, All, All-map, map, arith,
}
use qt_sss_shttps.Text.{Text, contains}
use qt_sss_shttps.Text.Laws.{text_eq_self}
use qt_sss_shttps.Hash.{has_key}
use qt_sss_shttps.Controller.{
  ModuleClass, Entry, stopped, killed, stopped_all, finished_all, Controller, leaves, and_then,
  report, stop_modules, kill_each, kill_modules, quit,
}
use qt_sss_shttps.Controller.Tables.{has_key_by_keys}
use qt_sss_shttps.Controller.Loading.{IsWellFormed, has_key-contains}
use qt_sss_shttps.Controller.Quitting.{
  IsSteady, last_first, farewell, AreStopped, stop_each-AreStopped, AreKilled, kill_each-AreKilled,
}

All-contains : (uids : List Text) → All (λ uid. contains uids uid ≡ true) uids
unfolding contains
All-contains [] = tt
All-contains (uid ∷ uids) = (
  ground (arith, text_eq_self uid),
  All-map _ _ uids (λ u. λ e. ground (arith, e)) (All-contains uids),
)

-- What `quit` leaves: no module, and a report of the modules that were stopped, then of those that
-- were killed, each from the last to the first.
pub record HasQuit {M : Type 0} (k : ModuleClass M) (c : Controller M) : Type 0 where
  pub after : Controller M
  pub returns : quit k c ≡ leaves after
  pub no_uids : after.uids ≡ []
  pub no_modules : after.modules ≡ []
  pub reported : after.journal ≡ c.journal ++ farewell c.uids

farewell-append :
    (before : List Entry) (uids : List Text)
    → (((before ++ map stopped (last_first uids)) ++ (stopped_all ∷ []))
          ++ map killed (last_first uids))
        ++ (finished_all ∷ [])
      ≡ before ++ farewell uids
farewell-append before uids =
    append_assoc ((before ++ map stopped (last_first uids)) ++ (stopped_all ∷ [])) _ _
    ∙ append_assoc (before ++ map stopped (last_first uids)) _ _
    ∙ append_assoc before _ _

pub uids-present :
    {M : Type 0} (k : ModuleClass M) (c : Controller M)
    → IsWellFormed k c
    → All (λ uid. has_key uid c.modules ≡ true) c.uids
uids-present k c w =
    All-map _ _ c.uids
      (λ uid. λ e. has_key-contains uid c.modules ∙ ap (λ t. contains t uid) w.same ∙ e)
      (All-contains c.uids)

module _ {M : Type 0} (k : ModuleClass M) (P : M → Type 0) (steady : IsSteady k P)
    (c : Controller M) (w : IsWellFormed k c) (a : All (λ e. P e.1) c.modules) where
  all_stopped : AreStopped k P steady.keeps c.uids c
  all_stopped = stop_each-AreStopped k P steady.keeps c.uids c (uids-present k c w) a

  -- The controller as the modules are killed.
  abbrev before_kill : Controller M
  before_kill = report stopped_all all_stopped.after

  all_killed : AreKilled k P steady c.uids before_kill
  unfolding report
  all_killed =
      kill_each-AreKilled k P steady c.uids before_kill w.distinct
        (All-map _ _ c.uids
          (λ uid.
            λ e. has_key_by_keys uid all_stopped.after.modules c.modules all_stopped.same_keys e)
          (uids-present k c w))
        all_stopped.all_steady

  kill_modules-returns :
      kill_modules k before_kill ≡ leaves (record all_killed.after { uids = []; modules = [] })
  unfolding kill_modules and_then report
  kill_modules-returns =
      ap
        (λ uids.
          and_then (kill_each k uids before_kill)
            (λ d. leaves (record d { uids = []; modules = [] })))
        all_stopped.same_uids
      ∙ ap (λ o. and_then o (λ d. leaves (record d { uids = []; modules = [] }))) all_killed.returns

  -- Where the modules of a well-formed controller have a property that stop keeps, and under
  -- which stop and die return: quit returns, no module is left, and every module was stopped and
  -- then killed, each from the last to the first.
  pub quit-HasQuit : HasQuit k c
  unfolding quit stop_modules and_then report
  quit-HasQuit = record {
    after = report finished_all (record all_killed.after { uids = []; modules = [] });
    returns =
        ap
          (λ o.
            and_then (and_then o (λ d. leaves (report stopped_all d)))
              (λ d. and_then (kill_modules k d) (λ x. leaves (report finished_all x))))
          all_stopped.returns
        ∙ ap (λ o. and_then o (λ x. leaves (report finished_all x))) kill_modules-returns;
    no_uids = refl;
    no_modules = refl;
    reported =
        ap (λ t. t ++ (finished_all ∷ [])) all_killed.reported
        ∙ ap
            (λ t.
              ((t ++ (stopped_all ∷ [])) ++ map killed (last_first c.uids)) ++ (finished_all ∷ []))
            all_stopped.reported
        ∙ farewell-append c.journal c.uids;
  }
