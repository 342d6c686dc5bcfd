-- ===== src/Application/Modules.antt =====
-- The modules of all classes that `loadModules` of AppController.cpp makes. That of
-- ModuleZeroConfig.cpp is a parameter: the other modules call it by signals that are not messages.
-- These signals are in ZeroConf/Signals and no part of the methods here, which are therefore those
-- of an application where no module that announces services is loaded.
pub mod Crashing
pub mod Up
pub mod Started
pub mod Ended
use qt_sss_shttps.Common.{ℕ, Bool, true, false, Option, none, some, List, [], ◌∷◌}
use qt_sss_shttps.Text.{Text}
use qt_sss_shttps.Codec.{Codec}
use qt_sss_shttps.Engine.{Engine}
use qt_sss_shttps.Json.{Fields}
use qt_sss_shttps.Conf.{Storage, Conf}
use qt_sss_shttps.Module.{exposed_bus_commands}
use qt_sss_shttps.HttpsServer.Setup.{Resolver, HttpsModule}
use qt_sss_shttps.HttpsServer.Running.{new_https_module, https_class}
use qt_sss_shttps.AppControl.{
  Pem, AppControl, new_app_control, init_app_control, start_app_control, stop_app_control,
  die_app_control,
}
use qt_sss_shttps.AppControl.Lifecycle.{started_control, stopped_control, dead_control}
use qt_sss_shttps.AppControl.Bus.{
  quits, done, null_pointer, BusTurn, BusOutcome, on_control_message,
}
use qt_sss_shttps.Controller.{
  Kind, app_control, base, https_server, zero_config, Request, asks_quit, ModuleClass,
}
use qt_sss_shttps.Controller.Plain.{requests, plain_class}

-- `kept` is the static list of the commands, which one module of that class has for itself.
pub data AnyModule (A : Type 0) : Type 0 where
  base_module : Conf → AnyModule A
  control_module : AppControl → (kept : List Text) → AnyModule A
  https_module : HttpsModule → AnyModule A
  announcing_module : A → AnyModule A

module _ {A : Type 0} where
  -- The result of a method of one class, as a module.
  unfoldable pub as_module : {M : Type 0} → (M → AnyModule A) → Option M → Option (AnyModule A)
  as_module f none = none
  as_module f (some m) = some (f m)

  unfoldable pub as_answer :
      {M : Type 0}
      → (M → AnyModule A)
      → Option (M × List Request)
      → Option (AnyModule A × List Request)
  as_answer f none = none
  as_answer f (some (m, rs)) = some (f m, rs)

  unfoldable pub control_answer :
      AppControl → (kept : List Text) → BusOutcome → Option (AnyModule A × List Request)
  control_answer m kept quits = some (control_module m kept, asks_quit ∷ [])
  control_answer m kept null_pointer = none
  control_answer m kept (done n es handled) = some (control_module n kept, requests es)

-- What the modules read of the machine, and the modules that announce services.
module _ (q : Codec) (e : Engine) (z : Resolver) (p : Pem) (storage : Storage) (random : ℕ → ℕ)
    (wss_listens www_listens https_listens : Bool) {A : Type 0} (announcers : ModuleClass A) where
  abbrev pub servers : ModuleClass HttpsModule
  servers = https_class q e z storage random https_listens

  unfoldable pub make_any : Kind → Conf → AnyModule A
  make_any app_control c = control_module (new_app_control c) exposed_bus_commands
  make_any base c = base_module c
  make_any https_server c = https_module (new_https_module c)
  make_any zero_config c = announcing_module (announcers.make zero_config c)

  unfoldable pub conf_of_any : AnyModule A → Conf
  conf_of_any (base_module c) = c
  conf_of_any (control_module m kept) = m.conf
  conf_of_any (https_module m) = m.conf
  conf_of_any (announcing_module m) = announcers.conf_of m

  unfoldable pub init_any : AnyModule A → Option (AnyModule A)
  init_any (base_module c) = some (base_module c)
  init_any (control_module m kept) =
      some (control_module (init_app_control z p storage random m) kept)
  init_any (https_module m) = as_module https_module (servers.init m)
  init_any (announcing_module m) = as_module announcing_module (announcers.init m)

  unfoldable pub start_any : AnyModule A → Option (AnyModule A)
  start_any (base_module c) = some (base_module c)
  start_any (control_module m kept) =
      as_module (λ n. control_module n kept)
        (started_control (start_app_control z p storage random wss_listens www_listens m))
  start_any (https_module m) = as_module https_module (servers.start m)
  start_any (announcing_module m) = as_module announcing_module (announcers.start m)

  unfoldable pub stop_any : AnyModule A → Option (AnyModule A)
  stop_any (base_module c) = some (base_module c)
  stop_any (control_module m kept) =
      as_module (λ n. control_module n kept) (stopped_control m (stop_app_control m))
  stop_any (https_module m) = as_module https_module (servers.stop m)
  stop_any (announcing_module m) = as_module announcing_module (announcers.stop m)

  unfoldable pub die_any : AnyModule A → Option (AnyModule A)
  die_any (base_module c) = some (base_module c)
  die_any (control_module m kept) =
      as_module (λ n. control_module n kept) (dead_control (die_app_control m))
  die_any (https_module m) = as_module https_module (servers.die m)
  die_any (announcing_module m) = as_module announcing_module (announcers.die m)

  unfoldable pub on_any_message : Fields → AnyModule A → Option (AnyModule A × List Request)
  on_any_message message (base_module c) =
      as_answer base_module ((plain_class storage).on_message message c)
  on_any_message message (control_module m kept) =
      let t = on_control_message z p storage random wss_listens www_listens message kept m in
      control_answer m t.kept t.outcome
  on_any_message message (https_module m) = as_answer https_module (servers.on_message message m)
  on_any_message message (announcing_module m) =
      as_answer announcing_module (announcers.on_message message m)

  unfoldable pub any_class : ModuleClass (AnyModule A)
  any_class = record {
    make = make_any;
    conf_of = conf_of_any;
    init = init_any;
    start = start_any;
    stop = stop_any;
    die = die_any;
    on_message = on_any_message;
  }
