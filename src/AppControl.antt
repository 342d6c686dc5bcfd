-- ===== src/AppControl.antt =====
-- ModuleAppControl.cpp: the module that is used from a browser, with its web socket server and its
-- HTTPS server, and `initSSL` of ModuleBase.cpp.
pub mod Login
pub mod Page
pub mod Lifecycle
pub mod Bus
use qt_sss_shttps.Common.{
  ℕ, Bool, true, false, ◌&&◌, Option, none, some, not, if◌then◌else◌, List, [], ◌∷◌, ◌++◌,
}
use qt_sss_shttps.Text.{Text, codes}
use qt_sss_shttps.Conf.{Storage, Conf}
use qt_sss_shttps.Conf.Settings.{
  path_cert, path_key, list_bw, is_list_black, max_connections, local_ip, local_port, local_port1,
}
use qt_sss_shttps.Module.{Effect, is_active_module, start_module, stop_module, die_module}
use qt_sss_shttps.HttpsServer.Setup.{
  Resolver, string_to_host_address, host_text, resolve_list, init_password,
}
use qt_sss_shttps.Www.Server.{
  WwwServer, new_server, init, set_max_connections, StartResult, start, destroy,
}
use qt_sss_shttps.Wss.{
  WssServer, new_wss_server, init_listener, limit_connections, is_listening, start_listening,
}

-- The framework's certificates: whether a file is there, and whether what it holds is read as a
-- certificate and as a key that are not null.
pub record Pem : Type 0 where
  pub exists_at : Text → Bool
  pub is_certificate : Text → Bool
  pub is_key : Text → Bool

-- `has_certificate`, `has_private_key`: they are not null. `sockets` and `pages` are `pWebSocketServer` and
-- `pWWWSserver`.
pub record AppControl : Type 0 where
  pub conf : Conf
  pub address_list : List Text
  pub has_certificate : Bool
  pub has_private_key : Bool
  pub sockets : Option WssServer
  pub pages : Option WwwServer

-- The constructor.
abbrev pub new_app_control : Conf → AppControl
new_app_control c = record {
  conf = c;
  address_list = [];
  has_certificate = false;
  has_private_key = false;
  sockets = none;
  pages = none;
}

-- `initSSL` of ModuleBase.
unfoldable pub init_ssl : Pem → AppControl → AppControl
init_ssl p m =
    if p.exists_at (path_cert m.conf) && p.exists_at (path_key m.conf)
    then record m {
      has_certificate = p.is_certificate (path_cert m.conf);
      has_private_key = p.is_key (path_key m.conf);
    }
    else record m { has_certificate = false; has_private_key = false }

unfoldable pub init_authentication :
    Resolver → (storage : Storage) → (random : ℕ → ℕ) → AppControl → AppControl
init_authentication z storage random m =
    let c = init_password storage random m.conf in
    record m { conf = c; address_list = resolve_list z (list_bw c) }

-- The server that `initWebSocketServer` creates.
unfoldable pub make_sockets : Resolver → AppControl → WssServer
make_sockets z m =
    init_listener (host_text (string_to_host_address z (local_ip m.conf))) (local_port1 m.conf) (
      limit_connections (max_connections m.conf)
        (record new_wss_server { list_bw = m.address_list; list_is_black = is_list_black m.conf }))

unfoldable pub init_web_socket_server : Resolver → AppControl → AppControl
init_web_socket_server z m =
    if not (m.has_certificate && m.has_private_key)
    then m
    else elim m.sockets [ none ↦ record m { sockets = some (make_sockets z m) } | some _ ↦ m ]

-- The server that `initWWWserver` creates.
unfoldable pub make_pages : Resolver → AppControl → WwwServer
make_pages z m =
    init (host_text (string_to_host_address z (local_ip m.conf))) (local_port m.conf)
      (record (set_max_connections (max_connections m.conf) (record new_server {
        server_string = codes "SwissalpS ModuleAppControl";
        list_bw = m.address_list;
        list_is_black = is_list_black m.conf;
      })) { base_paths = codes ":/www/" ∷ [] })

unfoldable pub init_www_server : Resolver → AppControl → AppControl
init_www_server z m = elim m.sockets [
  | none ↦ m
  | some _ ↦ elim m.pages [ none ↦ record m { pages = some (make_pages z m) } | some _ ↦ m ]
]

unfoldable pub init_app_control :
    Resolver → Pem → (storage : Storage) → (random : ℕ → ℕ) → AppControl → AppControl
init_app_control z p storage random m =
    init_www_server z
      (init_web_socket_server z (init_authentication z storage random (init_ssl p m)))

-- `startWebSocketServer`, for what `listen` returns; `none` is a call on a null pointer.
unfoldable pub start_web_socket_server : (listens : Bool) → AppControl → Option AppControl
start_web_socket_server listens m = elim m.sockets [
  | none ↦ some m
  | some s ↦ elim (start_listening listens s) [
    | none ↦ none
    | some t ↦ some (record m { sockets = some t })
  ]
]

-- `startWWWserver`: what the start of the server comes to, `none` where it is not started.
unfoldable pub start_www_server : (listens : Bool) → AppControl → Option StartResult
start_www_server listens m = elim m.pages [
  | none ↦ none
  | some w ↦ elim m.sockets [
    | none ↦ none
    | some s ↦ if is_listening s then some (start listens w) else none
  ]
]

pub record Started : Type 0 where
  pub control : AppControl
  pub effects : List Effect
  pub pages_started : Option StartResult

unfoldable pub init_if_needed :
    Resolver → Pem → (storage : Storage) → (random : ℕ → ℕ) → AppControl → AppControl
init_if_needed z p storage random m = elim m.sockets [
  | none ↦ init_app_control z p storage random m
  | some _ ↦ m
]

-- `start`, for what the two calls of `listen` return.
unfoldable pub start_app_control :
    Resolver
    → Pem
    → (storage : Storage) → (random : ℕ → ℕ) → (wss_listens www_listens : Bool) → AppControl
    → Option Started
start_app_control z p storage random wss_listens www_listens m =
    if not (is_active_module m.conf)
    then some (record { control = m; effects = []; pages_started = none })
    else elim (start_web_socket_server wss_listens (init_if_needed z p storage random m)) [
      | none ↦ none
      | some n ↦ some (record {
        control = n;
        effects = start_module m.conf;
        pages_started = start_www_server www_listens n;
      })
    ]

-- `stop`, with `stopWWWserver` and `stopWebSocketServer`: both call through their pointer, so it
-- is `none` where one is null. The `stop` of either server only writes a debug message.
unfoldable pub stop_app_control : AppControl → Option (List Effect)
stop_app_control m = elim m.pages [
  | none ↦ none
  | some w ↦ elim m.sockets [ none ↦ none | some s ↦ some (stop_module m.conf) ]
]

-- `die`: `stop`, then `ModuleBase::die`, which calls `stop` of this class again, and then the
-- servers are deleted: the one for web sockets has its listener since `init`.
unfoldable pub die_app_control : AppControl → Option (AppControl × List Effect)
die_app_control m = elim m.pages [
  | none ↦ none
  | some w ↦ elim (stop_app_control m) [
    | none ↦ none
    | some es ↦ destroy w (record m { sockets = none; pages = none }, es ++ die_module m.conf)
  ]
]
