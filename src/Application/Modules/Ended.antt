-- ===== src/Application/Modules/Ended.antt =====
-- The life of an application of modules of the base class, from `run` to `quit`.
use qt_sss_shttps.Common.{ℕ, ◌≡◌, refl, Bool, true, false, some, List, []}
use qt_sss_shttps.Codec.{Codec}
use qt_sss_shttps.Engine.{Engine}
use qt_sss_shttps.Conf.{Storage, Conf}
use qt_sss_shttps.HttpsServer.Setup.{Resolver}
use qt_sss_shttps.AppControl.{Pem}
use qt_sss_shttps.Controller.{Kind, base, ModuleClass, Controller, run, load_modules}
use qt_sss_shttps.Controller.Loading.{IsWellFormed}
use qt_sss_shttps.Controller.Quitting.{IsSteady}
use qt_sss_shttps.Controller.Starting.{IsReady}
use qt_sss_shttps.Controller.Starting.Lived.{AllNamed, HasLived, run-HasLived}
use qt_sss_shttps.Application.Modules.{
  AnyModule, base_module, control_module, https_module, announcing_module, init_any, start_any,
  stop_any, die_any, make_any, any_class,
}
use qt_sss_shttps.Application.Modules.Started.{make_any-conf}

-- A module of the base class.
abbrev pub IsBase : {A : Type 0} → AnyModule A → Type 0
IsBase (base_module c) = Unit
IsBase (control_module m kept) = true ≡ false
IsBase (https_module m) = true ≡ false
IsBase (announcing_module m) = true ≡ false

unfoldable pub is_base : Kind → Bool
is_base base = true
is_base kind = false

module _ (q : Codec) (e : Engine) (z : Resolver) (p : Pem) (storage : Storage) (random : ℕ → ℕ)
    (wss_listens : Bool) {A : Type 0} (announcers : ModuleClass A) where
  abbrev K : ModuleClass (AnyModule A)
  K = any_class q e z p storage random wss_listens true true announcers

  init_any-base : (m : AnyModule A) → IsBase m → K.init m ≡ some m
  unfolding any_class init_any
  init_any-base (base_module c) b = refl
  init_any-base (control_module m kept) b = absurd (cc b)
  init_any-base (https_module m) b = absurd (cc b)
  init_any-base (announcing_module m) b = absurd (cc b)

  start_any-base : (m : AnyModule A) → IsBase m → K.start m ≡ some m
  unfolding any_class start_any
  start_any-base (base_module c) b = refl
  start_any-base (control_module m kept) b = absurd (cc b)
  start_any-base (https_module m) b = absurd (cc b)
  start_any-base (announcing_module m) b = absurd (cc b)

  stop_any-base : (m : AnyModule A) → IsBase m → K.stop m ≡ some m
  unfolding any_class stop_any
  stop_any-base (base_module c) b = refl
  stop_any-base (control_module m kept) b = absurd (cc b)
  stop_any-base (https_module m) b = absurd (cc b)
  stop_any-base (announcing_module m) b = absurd (cc b)

  die_any-base : (m : AnyModule A) → IsBase m → K.die m ≡ some m
  unfolding any_class die_any
  die_any-base (base_module c) b = refl
  die_any-base (control_module m kept) b = absurd (cc b)
  die_any-base (https_module m) b = absurd (cc b)
  die_any-base (announcing_module m) b = absurd (cc b)

  IsBase-IsReady : IsReady K IsBase IsBase
  IsBase-IsReady = record {
    weakens = λ m b. b;
    inits = λ m b. (m, (init_any-base m b, (b, refl)));
    starts = λ m b. (m, (start_any-base m b, (b, refl)));
  }

  IsBase-IsSteady : IsSteady K IsBase
  IsBase-IsSteady = record {
    keeps = record { stops = λ m b. (m, (stop_any-base m b, b)) };
    dies = λ m b. (m, die_any-base m b);
  }

  make_any-IsBase : (kind : Kind) (c : Conf) → is_base kind ≡ true → IsBase (K.make kind c)
  unfolding any_class make_any is_base
  make_any-IsBase Kind.app_control c h = absurd (cc h)
  make_any-IsBase Kind.base c h = tt
  make_any-IsBase Kind.https_server c h = absurd (cc h)
  make_any-IsBase Kind.zero_config c h = absurd (cc h)

  -- Where a module that announces services would keep the configuration it is made with, and no
  -- configuration names another known class than that of the base, so that the signals to modules
  -- that announce services go nowhere: the run of a well-formed application without modules
  -- returns, with the modules that were loaded, and the quit after it returns too, leaves no
  -- module, and reports that every module was stopped and then killed, each from the last to the
  -- first.
  pub any_class-HasLived :
      ((kind : Kind) (c : Conf) → announcers.conf_of (announcers.make kind c) ≡ c)
      → (confs : List Conf) (c : Controller (AnyModule A)) → AllNamed is_base confs
      → IsWellFormed K c
      → c.uids ≡ []
      → HasLived K IsBase (load_modules K storage confs c) (run K storage confs c)
  any_class-HasLived h confs c n w f =
      run-HasLived K IsBase IsBase IsBase-IsReady IsBase-IsSteady
        (make_any-conf q e z p storage random wss_listens announcers h) is_base make_any-IsBase
        storage confs c n w f
