-- ===== src/HttpsServer/Setup.antt =====
-- `init` of ModuleHTTPSserver.cpp, with `initAuthentication` and `stringToHostAddress` of
-- ModuleBase.cpp: the server as the configuration describes it.
pub mod Configured
use qt_sss_shttps.Common.{
  ℕ, zero, suc, ◌+◌, ◌%◌, Bool, true, false, Option, none, some, List, [], ◌∷◌, ◌++◌, if◌then◌else◌,
  get_elem?, length,
}
use qt_sss_shttps.Text.{Text, codes, text_eq}
use qt_sss_shttps.Codec.{Codec}
use qt_sss_shttps.Engine.{Engine}
use qt_sss_shttps.Json.{to_object}
use qt_sss_shttps.Conf.{Storage, Conf}
use qt_sss_shttps.Conf.Settings.{
  password, set_password, list_bw, is_list_black, base_paths, max_connections, local_ip, local_port,
}
use qt_sss_shttps.Www.Server.{WwwServer, new_server, init, set_max_connections}
use qt_sss_shttps.Handlers.{Handler}
use qt_sss_shttps.HttpsServer.{init_handlers}

-- The framework's addresses and name look-up: whether a text is an address, its normal form, and the
-- addresses of a host name, each with whether it is of IPv4.
pub record Resolver : Type 0 where
  pub is_address : Text → Bool
  pub normal_form : Text → Text
  pub addresses : Text → List (Text × Bool)

-- The loop of `stringToHostAddress`: the first address of IPv4, or else the last one.
unfoldable pub pick_address : List (Text × Bool) → Option Text
pick_address [] = none
pick_address ((ip, is_ipv4) ∷ []) = some ip
pick_address ((ip, is_ipv4) ∷ x ∷ xs) =
    let rest = pick_address (x ∷ xs) in if is_ipv4 then some ip else rest

-- A null address is `none`.
unfoldable pub string_to_host_address : Resolver → Text → Option Text
string_to_host_address z host =
    if z.is_address host then some (z.normal_form host) else pick_address (z.addresses host)

unfoldable pub add_address : Option Text → List Text → List Text
add_address none ips = ips
add_address (some ip) ips = ip ∷ ips

-- The second part of `initAuthentication`.
unfoldable pub resolve_list : Resolver → List Text → List Text
resolve_list z [] = []
resolve_list z (host ∷ hosts) = add_address (string_to_host_address z host) (resolve_list z hosts)

abbrev pub password_pool : Text
password_pool = codes "abcdefghijklmnopqrstuvwxyz0123456789-._?&%*ABCDEFGHIJKLMNOPQRSTUVWXYZ"

unfoldable pub char_at : Text → ℕ → Text
char_at t i = elim (get_elem? t i) [ none ↦ [] | some c ↦ c ∷ [] ]

-- The loop that makes a password, for the numbers that `qrand` yields: it goes on while the password
-- has at most 12 characters, which is 13 rounds.
unfoldable pub make_password : (random : ℕ → ℕ) → (rounds : ℕ) → Text
make_password random zero = []
make_password random (suc n) =
    make_password random n ++ char_at password_pool (random n % length password_pool)

-- The first part of `initAuthentication`.
unfoldable pub init_password : (storage : Storage) → (random : ℕ → ℕ) → Conf → Conf
init_password storage random c =
    if text_eq (password c) (codes "-") then set_password storage (make_password random 13) c else c

-- `server`: `none` while `pWWWSserver` is null.
pub record HttpsModule : Type 0 where
  pub conf : Conf
  pub address_list : List Text
  pub handlers : List Handler
  pub server : Option WwwServer

unfoldable pub host_text : Option Text → Text
host_text none = []
host_text (some ip) = ip

-- The server that `init` creates.
unfoldable pub make_server : Resolver → Conf → WwwServer
make_server z c =
    init (host_text (string_to_host_address z (local_ip c))) (local_port c)
      (record (set_max_connections (max_connections c) (record new_server {
        server_string = codes "SwissalpS ModuleHTTPSserver";
        list_bw = resolve_list z (list_bw c);
        list_is_black = is_list_black c;
      })) { base_paths = base_paths c })

unfoldable pub set_up : Codec → Engine → Resolver → Conf → HttpsModule
set_up q e z c = record {
  conf = c;
  address_list = resolve_list z (list_bw c);
  handlers = init_handlers q e (to_object c.document);
  server = some (make_server z c);
}

-- `init`, which runs once.
unfoldable pub init_module :
    Codec → Engine → Resolver → (storage : Storage) → (random : ℕ → ℕ) → HttpsModule → HttpsModule
init_module q e z storage random m = elim m.server [
  | none ↦ set_up q e z (init_password storage random m.conf)
  | some s ↦ m
]
