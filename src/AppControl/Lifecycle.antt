-- ===== src/AppControl/Lifecycle.antt =====
-- The two servers of the module over its life: which calls find them, and which a null pointer.
use qt_sss_shttps.Common.{
  ℕ, sym, ap, ◌∙◌, ◌≡◌, refl, Bool, true, false, ◌&&◌, not, Option, none, some, List, [], ◌∷◌,
  if◌then◌else◌, arith, Option-cases, inl, inr,
}
use qt_sss_shttps.Www.Server.{
  StartResult, listening, not_listening, null_pointer, init, start, destroy, set_max_connections,
}
use qt_sss_shttps.Conf.{Storage, Conf}
use qt_sss_shttps.Conf.Settings.{path_cert, path_key}
use qt_sss_shttps.Module.{Effect, stop_module, is_active_module}
use qt_sss_shttps.HttpsServer.Setup.{Resolver, init_password}
use qt_sss_shttps.Wss.{is_listening, init_listener, start_listening}
use qt_sss_shttps.AppControl.{
  start_www_server, make_pages, Pem, AppControl, new_app_control, init_ssl, init_authentication,
  make_sockets, init_web_socket_server, init_www_server, init_app_control, start_web_socket_server,
  Started, init_if_needed, start_app_control, stop_app_control, die_app_control,
}

-- Both files are there, and a certificate and a key are read from them.
abbrev pub has_pair : Pem → Conf → Bool
has_pair p c =
    (p.exists_at (path_cert c) && p.exists_at (path_key c))
    && (p.is_certificate (path_cert c) && p.is_key (path_key c))

-- The first init of a module creates both servers where a certificate and a key are read, and
-- none otherwise; the stop that follows then calls through a null pointer.
stop_app_control-init_app_control :
    (z : Resolver) (p : Pem) (storage : Storage) (random : ℕ → ℕ) (c : Conf)
    → stop_app_control (init_app_control z p storage random (new_app_control c))
      ≡ (if has_pair p c then some (stop_module (init_password storage random c)) else none)
unfolding stop_app_control init_app_control init_ssl init_authentication init_web_socket_server
    init_www_server
stop_app_control-init_app_control z p storage random c = ground arith

-- The servers are both there or both missing, the web socket server has its listener, and the
-- other one no socket.
unfoldable pub is_paired : AppControl → Bool
is_paired m = elim m.sockets [
  | none ↦ elim m.pages [ none ↦ true | some w ↦ false ]
  | some s ↦ elim m.pages [
    | none ↦ false
    | some w ↦ elim s.listener [ none ↦ false | some l ↦ not w.has_tcp_server ]
  ]
]

pub init_app_control-paired :
    (z : Resolver) (p : Pem) (storage : Storage) (random : ℕ → ℕ) (m : AppControl)
    → is_paired m ≡ true
    → is_paired (init_app_control z p storage random m) ≡ true
unfolding is_paired init_app_control init_ssl init_authentication init_web_socket_server
    init_www_server make_sockets init_listener make_pages init set_max_connections
init_app_control-paired z p storage random m h = ground arith

-- The calls that the application makes of the module.
pub data Call : Type 0 where
  inits : Pem → (storage : Storage) → (random : ℕ → ℕ) → Call
  starts : Pem → (storage : Storage) → (random : ℕ → ℕ) → (wss_listens www_listens : Bool) → Call
  stops dies : Call

-- A start of the pages that fails reads the message of the failure through a null pointer.
unfoldable pub shown : AppControl → Option StartResult → Option AppControl
shown m none = some m
shown m (some listening) = some m
shown m (some not_listening) = some m
shown m (some null_pointer) = none

unfoldable pub started_control : Option Started → Option AppControl
started_control none = none
started_control (some r) = shown r.control r.pages_started

unfoldable pub stopped_control : AppControl → Option (List Effect) → Option AppControl
stopped_control m none = none
stopped_control m (some es) = some m

unfoldable pub dead_control : Option (AppControl × List Effect) → Option AppControl
dead_control none = none
dead_control (some (m, es)) = some m

-- The module after a call; `none` is a call through a null pointer.
unfoldable pub perform : Resolver → Call → AppControl → Option AppControl
perform z (inits p storage random) m = some (init_app_control z p storage random m)
perform z (starts p storage random wss_listens www_listens) m =
    started_control (start_app_control z p storage random wss_listens www_listens m)
perform z stops m = stopped_control m (stop_app_control m)
perform z dies m = dead_control (die_app_control m)

unfoldable pub is_paired_after : Option AppControl → Bool
is_paired_after none = true
is_paired_after (some m) = is_paired m

unfoldable pub lacks {ℓ} : {A : Type ℓ} → Option A → Bool
lacks none = true
lacks (some a) = false

-- Whether the web socket server listens, once it is started.
unfoldable pub is_open : Option AppControl → Bool
is_open none = false
is_open (some m) = elim m.sockets [ none ↦ false | some s ↦ is_listening s ]

-- Whether the module, when it is started with those arguments, comes to a failing listen.
unfoldable pub fails_to_listen :
    Resolver
    → Pem
    → (storage : Storage) → (random : ℕ → ℕ) → (wss_listens www_listens : Bool) → AppControl
    → Bool
fails_to_listen z p storage random wss_listens www_listens m =
    is_active_module m.conf
    && is_open (start_web_socket_server wss_listens (init_if_needed z p storage random m))
    && not www_listens

unfoldable pub faults : Resolver → Call → AppControl → Bool
faults z (inits p storage random) m = false
faults z (starts p storage random wss_listens www_listens) m =
    fails_to_listen z p storage random wss_listens www_listens m
faults z stops m = lacks m.sockets
faults z dies m = true

pub start_app_control-paired :
    (z : Resolver) (p : Pem) (storage : Storage) (random : ℕ → ℕ) (wss_listens www_listens : Bool)
    (m : AppControl)
    → is_paired m ≡ true
    → is_paired_after
        (started_control (start_app_control z p storage random wss_listens www_listens m))
      ≡ true
unfolding shown start_www_server start make_pages init set_max_connections started_control
    is_paired_after is_paired start_app_control init_if_needed init_app_control init_ssl
    init_authentication init_web_socket_server init_www_server make_sockets init_listener
    start_web_socket_server start_listening
start_app_control-paired z p storage random wss_listens www_listens m h = ground arith

perform-paired :
    (z : Resolver) (k : Call) (m : AppControl)
    → is_paired m ≡ true
    → is_paired_after (perform z k m) ≡ true
unfolding perform is_paired_after is_paired stopped_control dead_control stop_app_control
    die_app_control destroy
perform-paired z (inits p storage random) m h = init_app_control-paired z p storage random m h
perform-paired z (starts p storage random wss_listens www_listens) m h =
    start_app_control-paired z p storage random wss_listens www_listens m h
perform-paired z stops m h = ground arith
perform-paired z dies m h = ground arith

pub start_app_control-lacks :
    (z : Resolver) (p : Pem) (storage : Storage) (random : ℕ → ℕ) (wss_listens www_listens : Bool)
    (m : AppControl)
    → is_paired m ≡ true
    → lacks (started_control (start_app_control z p storage random wss_listens www_listens m))
      ≡ fails_to_listen z p storage random wss_listens www_listens m
unfolding fails_to_listen is_open lacks start_www_server start shown make_pages init
    set_max_connections started_control is_paired start_app_control init_if_needed init_app_control
    init_ssl init_authentication init_web_socket_server init_www_server make_sockets init_listener
    start_web_socket_server start_listening
start_app_control-lacks z p storage random wss_listens www_listens m h = ground arith

perform-lacks :
    (z : Resolver) (k : Call) (m : AppControl)
    → is_paired m ≡ true
    → lacks (perform z k m) ≡ faults z k m
unfolding perform faults destroy lacks is_paired stopped_control dead_control stop_app_control
    die_app_control
perform-lacks z (inits p storage random) m h = refl
perform-lacks z (starts p storage random wss_listens www_listens) m h =
    start_app_control-lacks z p storage random wss_listens www_listens m h
perform-lacks z stops m h = ground arith
perform-lacks z dies m h = ground arith

-- The calls in turn, up to one that goes through a null pointer.
unfoldable pub run : Resolver → List Call → AppControl → Option AppControl
run z [] m = some m
run z (k ∷ ks) m = elim (perform z k m) [ none ↦ none | some n ↦ run z ks n ]

run-some :
    (z : Resolver) (k : Call) (ks : List Call) (m n : AppControl)
    → perform z k m ≡ some n
    → run z (k ∷ ks) m ≡ run z ks n
unfolding run
run-some z k ks m n e = rw (e, run) refl

run-none :
    (z : Resolver) (k : Call) (ks : List Call) (m : AppControl)
    → perform z k m ≡ none
    → run z (k ∷ ks) m ≡ none
unfolding run
run-none z k ks m e = rw (e, run) refl

run-paired :
    (z : Resolver) (ks : List Call) (m n : AppControl)
    → is_paired m ≡ true
    → run z ks m ≡ some n
    → is_paired n ≡ true
unfolding run is_paired_after
run-paired z [] m n h e = let f = ap is_paired_after e in sym f ∙ h
run-paired z (k ∷ ks) m n h e = elim (Option-cases (perform z k m)) [
  | inl f ↦ absurd (let d = sym (run-none z k ks m f) ∙ e in cc d)
  | inr (l, f) ↦
      run-paired z ks l n (sym (ap is_paired_after f) ∙ perform-paired z k m h)
        (sym (run-some z k ks m l f) ∙ e)
]

-- After any calls that do not go through a null pointer, a further call goes through one exactly
-- in these cases: it is die; it is stop and the web socket server is not there; or it is start,
-- the module is active, the web socket server then listens, and the pages fail to listen.
pub run-fault :
    (z : Resolver) (ks : List Call) (k : Call) (c : Conf) (n : AppControl)
    → run z ks (new_app_control c) ≡ some n
    → lacks (perform z k n) ≡ faults z k n
run-fault z ks k c n e =
    perform-lacks z k n (run-paired z ks (new_app_control c) n (unfold is_paired in refl) e)
