-- ===== src/Application/Modules/Up.antt =====
-- Modules that are made, and modules that are initialised.
use qt_sss_shttps.Common.{
  ℕ, ◌≡◌, refl, ◌∙◌, sym, inl, inr, Bool, true, false, ◌&&◌, not, Option, none, some, List, [],
  arith, Option-cases, if-both,
}
use qt_sss_shttps.Text.{codes}
use qt_sss_shttps.Conf.{Storage, Conf, bool_eq}
use qt_sss_shttps.Conf.Settings.{path_cert, path_key}
use qt_sss_shttps.Module.{Effect, is_active_module, start_module}
use qt_sss_shttps.Www.Server.{StartResult, listening, not_listening, null_pointer}
use qt_sss_shttps.Wss.{start_listening}
use qt_sss_shttps.HttpsServer.Setup.{Resolver, init_password}
use qt_sss_shttps.HttpsServer.Running.{HasServer, IsSocketless}
use qt_sss_shttps.HttpsServer.Lifetime.{init_password-text_at}
use qt_sss_shttps.AppControl.{
  Pem, AppControl, Started, init_ssl, init_authentication, init_web_socket_server, init_www_server,
  init_app_control, start_web_socket_server, start_www_server, init_if_needed, start_app_control,
}
use qt_sss_shttps.AppControl.Lifecycle.{is_paired, shown, started_control}
use qt_sss_shttps.Controller.{Kind, zero_config}
use qt_sss_shttps.Application.Modules.{
  AnyModule, base_module, control_module, https_module, announcing_module,
}

-- A certificate and a key can be read at the paths of the configuration.
unfoldable pub readable : Pem → Conf → Bool
readable p c =
    (p.exists_at (path_cert c) && p.exists_at (path_key c))
    && (p.is_certificate (path_cert c) && p.is_key (path_key c))

-- The web socket server is there.
unfoldable pub has_sockets : AppControl → Bool
has_sockets m = elim m.sockets [ none ↦ false | some s ↦ true ]

-- A module as it is made, none that announces services: an application control module has servers
-- at most where a certificate and a key can be read, and the server of an HTTPS module has no
-- socket of its own.
abbrev pub IsMade : {A : Type 0} → Pem → AnyModule A → Type 0
IsMade p (base_module c) = Unit
IsMade p (control_module m kept) =
    (is_paired m ≡ true) × ((has_sockets m && not (readable p m.conf)) ≡ false)
IsMade p (https_module m) = IsSocketless m
IsMade p (announcing_module m) = true ≡ false

-- A module that is initialised, none that announces services: an application control module has
-- both its servers where a certificate and a key can be read, and none otherwise, and an HTTPS
-- module has its server. The `init` of the base class has nothing to do.
abbrev pub IsUp : {A : Type 0} → Pem → AnyModule A → Type 0
IsUp p (base_module c) = Unit
IsUp p (control_module m kept) = (is_paired m ≡ true) × (has_sockets m ≡ readable p m.conf)
IsUp p (https_module m) = HasServer m
IsUp p (announcing_module m) = true ≡ false

-- The classes of modules without the one that announces services.
unfoldable pub is_silent : Kind → Bool
is_silent zero_config = false
is_silent kind = true

init_password-readable :
    (p : Pem) (storage : Storage) (random : ℕ → ℕ) (c : Conf)
    → readable p (init_password storage random c) ≡ readable p c
unfolding readable path_cert path_key
init_password-readable p storage random c = ground (
  arith,
  init_password-text_at storage random (codes "sPathCert") [] c (ground arith),
  init_password-text_at storage random (codes "sPathKey") [] c (ground arith),
)

pub init_app_control-readable :
    (z : Resolver) (p : Pem) (storage : Storage) (random : ℕ → ℕ) (m : AppControl)
    → readable p (init_app_control z p storage random m).conf ≡ readable p m.conf
unfolding init_app_control init_ssl init_authentication init_web_socket_server init_www_server
init_app_control-readable z p storage random m =
    ground (arith, init_password-readable p storage random m.conf)

-- An init makes the servers where it can read what they need.
pub init_app_control-sockets :
    (z : Resolver) (p : Pem) (storage : Storage) (random : ℕ → ℕ) (m : AppControl)
    → (has_sockets m && not (readable p m.conf)) ≡ false
    → has_sockets (init_app_control z p storage random m) ≡ readable p m.conf
unfolding has_sockets readable init_app_control init_ssl init_authentication init_web_socket_server
    init_www_server
init_app_control-sockets z p storage random m h = ground (arith, h)

init_if_needed-sockets :
    (z : Resolver) (p : Pem) (storage : Storage) (random : ℕ → ℕ) (m : AppControl)
    → has_sockets m ≡ readable p m.conf
    → has_sockets (init_if_needed z p storage random m)
      ≡ readable p (init_if_needed z p storage random m).conf
unfolding init_if_needed has_sockets
init_if_needed-sockets z p storage random m h = elim (Option-cases m.sockets) [
  | inl f ↦
      rw (f, init_if_needed)
        (init_app_control-sockets z p storage random m (ground (arith, f))
          ∙ sym (init_app_control-readable z p storage random m))
  | inr (s, f) ↦ rw (f, init_if_needed) h
]

-- The module after a call, if it returns, has its servers where it can read what they need.
unfoldable pub is_served_after : Pem → Option AppControl → Bool
is_served_after p none = true
is_served_after p (some m) = bool_eq (has_sockets m) (readable p m.conf)

start_web_socket_server-served :
    (p : Pem) (listens : Bool) (m : AppControl)
    → has_sockets m ≡ readable p m.conf
    → is_served_after p (start_web_socket_server listens m) ≡ true
unfolding is_served_after start_web_socket_server start_listening has_sockets bool_eq
start_web_socket_server-served p listens m h = ground (arith, h)

served_self :
    (p : Pem) (m : AppControl)
    → has_sockets m ≡ readable p m.conf
    → is_served_after p
        (started_control (some (record { control = m; effects = []; pages_started = none })))
      ≡ true
unfolding is_served_after bool_eq started_control shown
served_self p m h = ground (arith, h)

shown-served :
    (p : Pem) (m : AppControl) (r : Option StartResult)
    → is_served_after p (some m) ≡ true
    → is_served_after p (shown m r) ≡ true
unfolding is_served_after shown
shown-served p m none h = h
shown-served p m (some listening) h = h
shown-served p m (some not_listening) h = h
shown-served p m (some null_pointer) h = refl

started_control-served :
    (p : Pem) (listens : Bool) (es : List Effect) (o : Option AppControl)
    → is_served_after p o ≡ true
    → is_served_after p (
        started_control (elim o [
          | none ↦ none
          | some n ↦
              some
                (record { control = n; effects = es; pages_started = start_www_server listens n })
        ]))
      ≡ true
unfolding started_control
started_control-served p listens es none h = h
started_control-served p listens es (some n) h = shown-served p n (start_www_server listens n) h

pub start_app_control-served :
    (z : Resolver) (p : Pem) (storage : Storage) (random : ℕ → ℕ) (wss_listens www_listens : Bool)
    (m : AppControl)
    → has_sockets m ≡ readable p m.conf
    → is_served_after p
        (started_control (start_app_control z p storage random wss_listens www_listens m))
      ≡ true
unfolding start_app_control
start_app_control-served z p storage random wss_listens www_listens m h =
    if-both (λ (o : Option Started). is_served_after p (started_control o) ≡ true)
      (not (is_active_module m.conf)) _ _ (served_self p m h)
      (started_control-served p www_listens (start_module m.conf)
        (start_web_socket_server wss_listens (init_if_needed z p storage random m))
        (start_web_socket_server-served p wss_listens (init_if_needed z p storage random m)
          (init_if_needed-sockets z p storage random m h)))

pub is_served_after-some :
    (p : Pem) (m : AppControl)
    → is_served_after p (some m) ≡ true
    → has_sockets m ≡ readable p m.conf
unfolding is_served_after bool_eq
is_served_after-some p m h = ground (arith, h)
