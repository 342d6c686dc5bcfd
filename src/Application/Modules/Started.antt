-- ===== src/Application/Modules/Started.antt =====
-- `run` of an application with modules of any class, where all servers can listen.
use qt_sss_shttps.Common.{
  ℕ, ◌≡◌, refl, ap, ◌∙◌, sym, inl, inr, Bool, true, false, Option, none, some, List, [], arith,
  Option-cases,
}
use qt_sss_shttps.Codec.{Codec}
use qt_sss_shttps.Engine.{Engine}
use qt_sss_shttps.Conf.{Storage, Conf}
use qt_sss_shttps.Conf.Settings.{module_uid}
use qt_sss_shttps.HttpsServer.Setup.{Resolver, init_module}
use qt_sss_shttps.HttpsServer.Running.{https_class, HasServer-IsSocketless, init_module-HasServer}
use qt_sss_shttps.HttpsServer.Lifetime.{
  init_password-module_uid, init_module-module_uid, start_https-same,
}
use qt_sss_shttps.AppControl.{
  Pem, AppControl, init_ssl, init_authentication, init_web_socket_server, init_www_server,
  init_app_control, start_web_socket_server, init_if_needed, start_app_control,
}
use qt_sss_shttps.AppControl.Lifecycle.{
  is_paired, is_paired_after, lacks, shown, started_control, fails_to_listen,
  init_app_control-paired, start_app_control-paired, start_app_control-lacks,
}
use qt_sss_shttps.Controller.{
  Kind, app_control, base, https_server, zero_config, ModuleClass, Controller, run, load_modules,
}
use qt_sss_shttps.Controller.Loading.{IsWellFormed}
use qt_sss_shttps.Controller.Starting.{IsReady}
use qt_sss_shttps.Controller.Starting.Lived.{HasRun, AllNamed, run-HasRun}
use qt_sss_shttps.Application.Modules.{
  AnyModule, base_module, control_module, https_module, announcing_module, as_module, init_any,
  start_any, make_any, conf_of_any, any_class,
}
use qt_sss_shttps.Application.Modules.Up.{
  readable, has_sockets, IsMade, IsUp, is_silent, init_app_control-readable,
  init_app_control-sockets, is_served_after, start_app_control-served, is_served_after-some,
}

-- The configuration of the module after a call.
unfoldable conf_after : Conf → Option AppControl → Conf
conf_after c none = c
conf_after c (some m) = m.conf

init_app_control-module_uid :
    (z : Resolver) (p : Pem) (storage : Storage) (random : ℕ → ℕ) (m : AppControl)
    → module_uid (init_app_control z p storage random m).conf ≡ module_uid m.conf
unfolding init_app_control init_ssl init_authentication init_web_socket_server init_www_server
init_app_control-module_uid z p storage random m =
    ground (arith, init_password-module_uid storage random m.conf)

start_app_control-module_uid :
    (z : Resolver) (p : Pem) (storage : Storage) (random : ℕ → ℕ) (wss_listens www_listens : Bool)
    (m : AppControl)
    → module_uid (
        conf_after m.conf
          (started_control (start_app_control z p storage random wss_listens www_listens m)))
      ≡ module_uid m.conf
unfolding conf_after started_control shown start_app_control start_web_socket_server init_if_needed
start_app_control-module_uid z p storage random wss_listens www_listens m =
    ground (arith, init_app_control-module_uid z p storage random m)

fails_to_listen-not :
    (z : Resolver) (p : Pem) (storage : Storage) (random : ℕ → ℕ) (wss_listens : Bool)
    (m : AppControl)
    → fails_to_listen z p storage random wss_listens true m ≡ false
unfolding fails_to_listen
fails_to_listen-not z p storage random wss_listens m = ground arith

-- A call that returns with the servers as they should be, and with the name of the module.
abbrev Restarts : Pem → AppControl → Option AppControl → Type 0
Restarts p m o =
    (n : AppControl) × ((o ≡ some n)
      × (((is_paired n ≡ true) × (has_sockets n ≡ readable p n.conf))
          × (module_uid n.conf ≡ module_uid m.conf)))

start_app_control-Restarts :
    (z : Resolver) (p : Pem) (storage : Storage) (random : ℕ → ℕ) (wss_listens : Bool)
    (m : AppControl)
    → is_paired m ≡ true
    → has_sockets m ≡ readable p m.conf
    → Restarts p m (started_control (start_app_control z p storage random wss_listens true m))
unfolding lacks is_paired_after conf_after
start_app_control-Restarts z p storage random wss_listens m h k =
    let o = started_control (start_app_control z p storage random wss_listens true m) in
    elim (Option-cases o) [
      | inl f ↦ absurd (
          let d =
            sym (ap lacks f)
            ∙ (start_app_control-lacks z p storage random wss_listens true m h
                ∙ fails_to_listen-not z p storage random wss_listens m) in
          cc d)
      | inr (n, f) ↦ (
        n,
        (
          f,
          (
            (
              sym (ap is_paired_after f)
                  ∙ start_app_control-paired z p storage random wss_listens true m h,
              is_served_after-some p n (
                  sym (ap (is_served_after p) f)
                  ∙ start_app_control-served z p storage random wss_listens true m k),
            ),
            sym (ap (λ x. module_uid (conf_after m.conf x)) f)
                ∙ start_app_control-module_uid z p storage random wss_listens true m,
          ),
        ),
      )
    ]

module _ (q : Codec) (e : Engine) (z : Resolver) (p : Pem) (storage : Storage) (random : ℕ → ℕ)
    (wss_listens : Bool) {A : Type 0} (announcers : ModuleClass A) where
  abbrev K : ModuleClass (AnyModule A)
  K = any_class q e z p storage random wss_listens true true announcers

  -- A method returns with a module that is up and has its name.
  abbrev Brings : AnyModule A → Option (AnyModule A) → Type 0
  Brings m o =
      (n : AnyModule A) × ((o ≡ some n)
        × (IsUp p n × (module_uid (K.conf_of n) ≡ module_uid (K.conf_of m))))

  init_any-Brings : (m : AnyModule A) → IsMade p m → Brings m (K.init m)
  unfolding any_class init_any conf_of_any as_module https_class
  init_any-Brings (base_module c) s = (base_module c, (refl, (tt, refl)))
  init_any-Brings (control_module m kept) s = (
    control_module (init_app_control z p storage random m) kept,
    (
      refl,
      (
        (
          init_app_control-paired z p storage random m s.0,
          init_app_control-sockets z p storage random m s.1
              ∙ sym (init_app_control-readable z p storage random m),
        ),
        init_app_control-module_uid z p storage random m,
      ),
    ),
  )
  init_any-Brings (https_module m) s = (
    https_module (init_module q e z storage random m),
    (
      refl,
      (
        init_module-HasServer q e z storage random true m s,
        init_module-module_uid q e z storage random m,
      ),
    ),
  )
  init_any-Brings (announcing_module m) s = absurd (cc s)

  start_any-Brings : (m : AnyModule A) → IsUp p m → Brings m (K.start m)
  unfolding any_class start_any conf_of_any as_module https_class
  start_any-Brings (base_module c) s = (base_module c, (refl, (tt, refl)))
  start_any-Brings (control_module m kept) s =
      let (n, (f, (u, g))) = start_app_control-Restarts z p storage random wss_listens m s.0 s.1 in
      (control_module n kept, (rw f refl, (u, g)))
  start_any-Brings (https_module m) s =
      (https_module m, (rw (start_https-same q e z storage random m s) refl, (s, refl)))
  start_any-Brings (announcing_module m) s = absurd (cc s)

  IsUp-IsMade : (m : AnyModule A) → IsUp p m → IsMade p m
  IsUp-IsMade (base_module c) u = tt
  IsUp-IsMade (control_module m kept) u = (u.0, ground (arith, u.1))
  IsUp-IsMade (https_module m) u = HasServer-IsSocketless m u
  IsUp-IsMade (announcing_module m) u = u

  pub any_class-IsReady : IsReady K (IsMade p) (IsUp p)
  any_class-IsReady = record {
    weakens = IsUp-IsMade;
    inits = init_any-Brings;
    starts = start_any-Brings;
  }

  pub make_any-IsMade : (kind : Kind) (c : Conf) → is_silent kind ≡ true → IsMade p (K.make kind c)
  unfolding any_class make_any is_paired has_sockets is_silent
  make_any-IsMade app_control c h = (refl, refl)
  make_any-IsMade base c h = tt
  make_any-IsMade https_server c h = λ s f. absurd (cc f)
  make_any-IsMade zero_config c h = absurd (cc h)

  pub make_any-conf :
      ((kind : Kind) (c : Conf) → announcers.conf_of (announcers.make kind c) ≡ c)
      → (kind : Kind) (c : Conf) → K.conf_of (K.make kind c) ≡ c
  unfolding any_class make_any conf_of_any
  make_any-conf h app_control c = refl
  make_any-conf h base c = refl
  make_any-conf h https_server c = refl
  make_any-conf h zero_config c = h zero_config c

  -- Where all servers can listen, a module that announces services would keep the configuration
  -- it is made with, and no configuration names the class of these, so that the signals to them
  -- go nowhere: the run of a well-formed application without modules returns, with the modules
  -- that were loaded, which are all initialised: an application control module has both its
  -- servers exactly where a certificate and a key can be read, and none otherwise, and an HTTPS
  -- module has its server.
  pub any_class-HasRun :
      ((kind : Kind) (c : Conf) → announcers.conf_of (announcers.make kind c) ≡ c)
      → (confs : List Conf) (c : Controller (AnyModule A)) → AllNamed is_silent confs
      → IsWellFormed K c
      → c.uids ≡ []
      → HasRun K (IsUp p) (load_modules K storage confs c) (run K storage confs c)
  any_class-HasRun h confs c n w f =
      run-HasRun K (IsMade p) (IsUp p) any_class-IsReady (make_any-conf h) is_silent make_any-IsMade
        storage confs c n w f
