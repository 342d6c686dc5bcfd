-- ===== src/Controller/Starting/Lived.antt =====
-- The whole life of the modules: `run`, and then `quit`.
use qt_sss_shttps.Common.{
  ◌≡◌, refl, ap, ◌∙◌, sym, Bool, true, false, not, Option, none, some, List, [], ◌∷◌, All, All-map,
  if-both, subst,
}
use qt_sss_shttps.Text.{Text, contains}
use qt_sss_shttps.Hash.{has_key, insert-All, lookup-has_key}
use qt_sss_shttps.Conf.{Storage, Conf}
use qt_sss_shttps.Conf.Settings.{module_uid, module_class}
use qt_sss_shttps.Controller.{
  Kind, ModuleClass, initialized_all, started_all, Controller, Outcome, leaves, and_then, report,
  kind_of, add_module, load_module, load_each, load_modules, init_each, init_modules, start_each,
  start_modules, run,
}
use qt_sss_shttps.Controller.Loading.{
  Distinct, IsWellFormed, load_modules-IsWellFormed, has_key-contains,
}
use qt_sss_shttps.Controller.Tables.{Every, All-Every, Every-All}
use qt_sss_shttps.Controller.Quitting.{IsSteady}
use qt_sss_shttps.Controller.Quitting.Ended.{uids-present, HasQuit, quit-HasQuit}
use qt_sss_shttps.Controller.Starting.{
  All-has_key, Passes, Passes-report, IsReady, init_each-Passes, start_each-Passes,
}

-- The class that a configuration names is one of those, or it is unknown.
abbrev pub names_only : (Kind → Bool) → Option Kind → Bool
names_only allowed none = true
names_only allowed (some kind) = allowed kind

-- All configurations name classes of those, or unknown ones.
abbrev pub AllNamed : (Kind → Bool) → List Conf → Type 0
AllNamed allowed = All (λ conf. names_only allowed (kind_of (module_class conf)) ≡ true)

names_only-any : (o : Option Kind) → names_only (λ kind. true) o ≡ true
names_only-any none = refl
names_only-any (some kind) = refl

pub AllNamed-any : (confs : List Conf) → AllNamed (λ kind. true) confs
AllNamed-any [] = tt
AllNamed-any (conf ∷ confs) = (names_only-any (kind_of (module_class conf)), AllNamed-any confs)

module _ {M : Type 0} (k : ModuleClass M) where
  -- What is left when all modules run: those that were loaded.
  pub record HasRun (P : M → Type 0) (l : Controller M) (o : Outcome M) : Type 0 where
    pub after : Controller M
    pub same_uids : after.uids ≡ l.uids
    pub returns : o ≡ leaves after
    pub well_formed : IsWellFormed k after
    pub all_up : All (λ e. P e.1) after.modules

  module _ (Q : M → Type 0) (allowed : Kind → Bool)
      (makes : (kind : Kind) (conf : Conf) → allowed kind ≡ true → Q (k.make kind conf)) where
    add_module-All :
        (uid name : Text) (o : Option Kind) (conf : Conf) (c : Controller M)
        → names_only allowed o ≡ true
        → All (λ e. Q e.1) c.modules
        → All (λ e. Q e.1) (add_module k uid name o conf c).modules
    unfolding add_module report
    add_module-All uid name none conf c n a = a
    add_module-All uid name (some kind) conf c n a =
        insert-All Q uid (k.make kind conf) c.modules (makes kind conf n) a

    load_each-All :
        (storage : Storage) (confs : List Conf) (c : Controller M)
        → AllNamed allowed confs
        → All (λ e. Q e.1) c.modules
        → All (λ e. Q e.1) (load_each k storage confs c).modules
    unfolding load_each load_module report
    load_each-All storage [] c n a = a
    load_each-All storage (conf ∷ confs) c (n, ns) a =
        load_each-All storage confs (load_module k storage conf c) ns (
          if-both (λ (d : Controller M). All (λ e. Q e.1) d.modules) (not conf.is_ok) _ _ a
            (add_module-All _ _ (kind_of (module_class conf)) _ c n a))

    load_modules-All :
        (storage : Storage) (confs : List Conf) (c : Controller M)
        → AllNamed allowed confs
        → c.uids ≡ []
        → All (λ e. Q e.1) (load_modules k storage confs c).modules
    unfolding load_modules
    load_modules-All storage confs c n e =
        rw (e, load_modules)
          (load_each-All storage confs (record c { uids = []; modules = [] }) n tt)

  module _ (Q P : M → Type 0) (ready : IsReady k Q P) where
    -- What is left when all modules are initialised.
    abbrev IsUp : Text → M → Type 0
    IsUp uid m = (module_uid (k.conf_of m) ≡ uid) × P m

    init_modules-Passes :
        (c : Controller M)
        → IsWellFormed k c
        → All (λ e. Q e.1) c.modules
        → Passes IsUp c (init_modules k c)
    unfolding init_modules
    init_modules-Passes c w a =
        let p =
          init_each-Passes k Q P ready (λ u. false) c.uids c (uids-present k c w)
            (λ uid m e. (
              All-Every (λ u n. module_uid (k.conf_of n) ≡ u) c.modules w.named uid m e,
              (All-Every (λ u n. Q n) c.modules a uid m e, λ d. absurd (cc d)),
            )) in
        Passes-report IsUp c (init_each k c.uids c) initialized_all (record {
          after = p.after;
          returns = p.returns;
          same_uids = p.same_uids;
          same_keys = p.same_keys;
          every = λ uid m e.
              let (name, (q, r)) = p.every uid m e in
              (
                name,
                r (
                    sym (ap (λ t. contains t uid) (p.same_keys ∙ w.same))
                    ∙ (sym (has_key-contains uid p.after.modules)
                        ∙ lookup-has_key uid p.after.modules m e)),
              );
        })

    start_modules-Passes :
        (c : Controller M)
        → All (λ uid. has_key uid c.modules ≡ true) c.uids
        → Every IsUp c.modules
        → Passes IsUp c (start_modules k c)
    unfolding start_modules
    start_modules-Passes c h e =
        Passes-report IsUp c (start_each k c.uids c) started_all
          (start_each-Passes k Q P ready c.uids c h e)

    Passes-HasRun :
        (c : Controller M) (o : Outcome M) → IsWellFormed k c → Passes IsUp c o → HasRun P c o
    Passes-HasRun c o w p =
        let same = p.same_keys ∙ (w.same ∙ sym p.same_uids) in
        let d = subst Distinct (sym p.same_uids) w.distinct in
        let all = Every-All IsUp p.after.modules (subst Distinct (sym same) d) p.every in
        record {
          after = p.after;
          same_uids = p.same_uids;
          returns = p.returns;
          well_formed = record {
            same = same;
            distinct = d;
            named = All-map _ _ p.after.modules (λ e r. r.0) all;
          };
          all_up = All-map _ _ p.after.modules (λ e r. r.1) all;
        }

    -- Where a module keeps the configuration it is made with, every new module of the classes that
    -- the configurations name has a property under which init returns, and init brings about another one, under which start returns and which it
    -- keeps, both with the name of the module: the run of a well-formed controller without modules
    -- returns, and leaves a well-formed controller with the modules that were
    -- loaded, which all have that second property.
    pub run-HasRun :
        ((kind : Kind) (conf : Conf) → k.conf_of (k.make kind conf) ≡ conf)
        → (allowed : Kind → Bool)
        → ((kind : Kind) (conf : Conf) → allowed kind ≡ true → Q (k.make kind conf))
        → (storage : Storage) (confs : List Conf) (c : Controller M) → AllNamed allowed confs
        → IsWellFormed k c
        → c.uids ≡ []
        → HasRun P (load_modules k storage confs c) (run k storage confs c)
    unfolding run and_then
    run-HasRun make_keeps allowed makes storage confs c n w e =
        let l = load_modules k storage confs c in
        let v = load_modules-IsWellFormed k make_keeps storage confs c w in
        let p = init_modules-Passes l v (load_modules-All Q allowed makes storage confs c n e) in
        let s =
          start_modules-Passes p.after
            (subst (λ t. All (λ uid. has_key uid p.after.modules ≡ true) t) (sym p.same_uids)
              (All-has_key l.uids p.after.modules l.modules p.same_keys (uids-present k l v)))
            p.every in
        Passes-HasRun l _ v (record {
          after = s.after;
          returns = ap (λ o. and_then o (start_modules k)) p.returns ∙ s.returns;
          same_uids = s.same_uids ∙ p.same_uids;
          same_keys = s.same_keys ∙ p.same_keys;
          every = s.every;
        })

  -- A whole life: the modules run, and then all are stopped and killed.
  pub record HasLived (P : M → Type 0) (l : Controller M) (o : Outcome M) : Type 0 where
    pub ran : HasRun P l o
    pub ended : HasQuit k ran.after

  module _ (Q P : M → Type 0) (ready : IsReady k Q P) (steady : IsSteady k P) where
    -- Where a module keeps the configuration it is made with, every new module of the classes that
    -- the configurations name has a property under which init returns, init brings about a second property, start and stop return under
    -- it and keep it, die returns under it, and init and start keep the name of the module: the
    -- run of a well-formed controller without modules returns, with the
    -- modules that were loaded, and the quit after it returns too, leaves no module, and reports
    -- that every module was stopped and then killed, each from the last to the first.
    pub run-HasLived :
        ((kind : Kind) (conf : Conf) → k.conf_of (k.make kind conf) ≡ conf)
        → (allowed : Kind → Bool)
        → ((kind : Kind) (conf : Conf) → allowed kind ≡ true → Q (k.make kind conf))
        → (storage : Storage) (confs : List Conf) (c : Controller M) → AllNamed allowed confs
        → IsWellFormed k c
        → c.uids ≡ []
        → HasLived P (load_modules k storage confs c) (run k storage confs c)
    run-HasLived make_keeps allowed makes storage confs c n w e =
        let r = run-HasRun Q P ready make_keeps allowed makes storage confs c n w e in
        record { ran = r; ended = quit-HasQuit k P steady r.after r.well_formed r.all_up }
