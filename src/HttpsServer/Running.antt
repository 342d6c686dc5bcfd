-- ===== src/HttpsServer/Running.antt =====
-- `start`, `stop` and `die` of ModuleHTTPSserver.cpp, with the constructor, and the module as the controller uses it.
use qt_sss_shttps.Common.{
  ap, subst, sym, ◌∙◌, ◌∷◌, All, ◌||◌, arith, ℕ, Bool, true, false, not, Option, none, some,
  if◌then◌else◌, List, [], ◌++◌, ◌≡◌, refl, Option-cases, inl, inr,
}
use mathlib.Core.Option.{some_inj}
use qt_sss_shttps.Codec.{Codec}
use qt_sss_shttps.Engine.{Engine}
use qt_sss_shttps.Conf.{Storage, Conf}
use qt_sss_shttps.Module.{
  Effect, Command, start_command, stop_command, command_of, finish, result_true, run_command,
  is_accepted, is_active_module, start_module, stop_module, die_module,
}
use qt_sss_shttps.Json.{Fields, value, to_string}
use qt_sss_shttps.Www.Server.{
  WwwServer, StartResult, listening, not_listening, null_pointer, start, init, set_max_connections,
  destroy,
}
use qt_sss_shttps.HttpsServer.Setup.{Resolver, HttpsModule, init_module, set_up, make_server}
use qt_sss_shttps.Controller.{Request, Controller, quit, ModuleClass}
use qt_sss_shttps.Controller
use qt_sss_shttps.Text.{Text, codes}
use qt_sss_shttps.Controller.Loading.{IsWellFormed}
use qt_sss_shttps.Controller.Quitting.{IsKept}
use qt_sss_shttps.Controller.Quitting.Failing.{quit-fails}
use qt_sss_shttps.Controller.Plain.{requests}

-- The constructor.
abbrev pub new_https_module : Conf → HttpsModule
new_https_module c = record { conf = c; address_list = []; handlers = []; server = none }

pub record StartedHttps : Type 0 where
  pub https : HttpsModule
  pub effects : List Effect
  pub result : StartResult

-- The call of `start` of the server; `none` is a call through a null pointer.
unfoldable pub start_server : (listens : Bool) → List Effect → HttpsModule → Option StartedHttps
start_server listens es m = elim m.server [
  | none ↦ none
  | some s ↦ some (record { https = m; effects = es; result = start listens s })
]

-- `stop`.
unfoldable pub stop_https : HttpsModule → Option (List Effect)
stop_https m = elim m.server [ none ↦ none | some s ↦ some (stop_module m.conf) ]

-- `die`: `stop`, then `ModuleBase::die`, which calls `stop` of this class again, and then the
-- server is deleted.
unfoldable pub die_https : HttpsModule → Option (HttpsModule × List Effect)
die_https m = elim m.server [
  | none ↦ none
  | some s ↦ elim (stop_https m) [
    | none ↦ none
    | some es ↦ destroy s (record m { server = none }, es ++ die_module m.conf)
  ]
]

-- A start that fails reads the message of the failure through a null pointer.
unfoldable pub started_by : HttpsModule → StartResult → Option HttpsModule
started_by m listening = some m
started_by m not_listening = some m
started_by m null_pointer = none

unfoldable pub started_https : Option StartedHttps → Option HttpsModule
started_https none = none
started_https (some r) = started_by r.https r.result

unfoldable pub returns : {A : Type 0} → Option A → Bool
returns none = false
returns (some a) = true

unfoldable pub same_if : HttpsModule → Option (List Effect) → Option HttpsModule
same_if m none = none
same_if m (some es) = some m

unfoldable pub dead_https : Option (HttpsModule × List Effect) → Option HttpsModule
dead_https none = none
dead_https (some (m, es)) = some m

-- The server, where it is there, has no socket of its own, as the constructor leaves it.
abbrev pub IsSocketless : HttpsModule → Type 0
IsSocketless m = (s : WwwServer) → m.server ≡ some s → s.has_tcp_server ≡ false

-- A module has its server after init.
abbrev pub HasServer : HttpsModule → Type 0
HasServer m = (s : WwwServer) × ((m.server ≡ some s) × (s.has_tcp_server ≡ false))

pub HasServer-IsSocketless : (m : HttpsModule) → HasServer m → IsSocketless m
HasServer-IsSocketless m (s, (f, g)) t e =
    subst (λ u. u.has_tcp_server ≡ false) (some_inj.0 (sym f ∙ e)) g

-- What `init` reads, and what `listen` returns.
module _ (q : Codec) (e : Engine) (z : Resolver) (storage : Storage) (random : ℕ → ℕ)
    (listens : Bool) where
  -- `start` of a module that is active: the server is there once `init` was called.
  unfoldable pub start_active : HttpsModule → Option StartedHttps
  start_active m = start_server listens (start_module m.conf) (init_module q e z storage random m)

  unfoldable pub start_https : HttpsModule → Option HttpsModule
  start_https m = if not (is_active_module m.conf) then some m else started_https (start_active m)

  -- `executeBusCommand` of the base class; `start` and `stop` are those of this class.
  unfoldable pub run_https_command :
      Command → Fields → HttpsModule → Option (HttpsModule × List Request)
  run_https_command start_command message m = elim (start_https m) [
    | none ↦ none
    | some n ↦ some (n, requests (finish n.conf [] message result_true).effects)
  ]
  run_https_command stop_command message m = elim (stop_https m) [
    | none ↦ none
    | some es ↦ some (m, requests (finish m.conf es message result_true).effects)
  ]
  run_https_command k message m =
      let r = run_command storage k message m.conf in
      some (record m { conf = r.conf }, requests r.effects)

  unfoldable pub on_https_message : Fields → HttpsModule → Option (HttpsModule × List Request)
  on_https_message message m =
      if not (is_accepted message m.conf)
      then some (m, [])
      else elim (command_of (to_string [] (value (codes "command") message))) [
        | none ↦ some (m, [])
        | some k ↦ run_https_command k message m
      ]

  unfoldable pub https_class : ModuleClass HttpsModule
  https_class = record {
    make = λ kind c. new_https_module c;
    conf_of = λ m. m.conf;
    init = λ m. some (init_module q e z storage random m);
    start = start_https;
    stop = λ m. same_if m (stop_https m);
    die = λ m. dead_https (die_https m);
    on_message = on_https_message;
  }

  pub init_module-HasServer :
      (m : HttpsModule) → IsSocketless m → HasServer (init_module q e z storage random m)
  unfolding init_module set_up make_server init set_max_connections
  init_module-HasServer m h = elim (Option-cases m.server) [
    | inl f ↦ rw (f, init_module) (_, (refl, refl))
    | inr (s, f) ↦ rw (f, init_module) (s, (f, h s f))
  ]

  pub record IsGuarded (m : HttpsModule) : Type 0 where
    pub inits : HasServer (init_module q e z storage random m)
    pub starts : returns (https_class.start m) ≡ (not (is_active_module m.conf) || listens)
    pub stops : returns (https_class.stop m) ≡ returns m.server
    pub dies : returns (https_class.die m) ≡ false

  started_by-returns :
      (m : HttpsModule) (es : List Effect) (s : WwwServer)
      → m.server ≡ some s
      → returns (started_https (start_server listens es m)) ≡ (listens || s.has_tcp_server)
  unfolding start_server started_https started_by start returns
  started_by-returns m es s f = rw (f, start_server) (ground arith)

  stop_https-returns : (m : HttpsModule) → returns (same_if m (stop_https m)) ≡ returns m.server
  unfolding stop_https same_if returns
  stop_https-returns m = ground arith

  pub die_https-none : (m : HttpsModule) → IsSocketless m → dead_https (die_https m) ≡ none
  unfolding die_https stop_https dead_https destroy
  die_https-none m h = elim (Option-cases m.server) [
    | inl f ↦ rw (f, die_https) refl
    | inr (s, f) ↦ rw (f, die_https) (ground (arith, f, h s f))
  ]

  -- Of a module whose server, if there is one, has no socket: init leaves such a server; start
  -- returns exactly where the module is not active or the server can listen; stop returns exactly
  -- where there is a server; and die never returns, with a server or without one.
  https_class-IsGuarded : (m : HttpsModule) → IsSocketless m → IsGuarded m
  unfolding https_class start_https start_active returns
  https_class-IsGuarded m h =
      let (s, (f, g)) = init_module-HasServer m h in
      record {
        inits = (s, (f, g));
        starts = ground (
          arith,
          g,
          started_by-returns (init_module q e z storage random m) (start_module m.conf) s f,
        );
        stops = stop_https-returns m;
        dies = ap returns (die_https-none m h);
      }

  https_class-IsKept : IsKept https_class HasServer
  unfolding https_class stop_https same_if
  https_class-IsKept = record {
    stops = λ m (s, (f, g)). (m, (rw (f, stop_https) refl, (s, (f, g))));
  }

  die_https-fails : (m : HttpsModule) → HasServer m → https_class.die m ≡ none
  unfolding https_class
  die_https-fails m h = die_https-none m (HasServer-IsSocketless m h)

  -- The quit of a well-formed controller of HTTPS modules, at least one, that all have their
  -- servers as init leaves them, goes through a null pointer.
  pub https_class-quit :
      (uid : Text) (uids : List Text) (c : Controller HttpsModule)
      → c.uids ≡ uid ∷ uids
      → IsWellFormed https_class c
      → All (λ e. HasServer e.1) c.modules
      → quit https_class c ≡ Controller.null_pointer
  https_class-quit uid uids c e w a =
      quit-fails https_class HasServer https_class-IsKept die_https-fails uid uids c e w a
