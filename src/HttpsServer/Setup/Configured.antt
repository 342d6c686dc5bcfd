-- ===== src/HttpsServer/Setup/Configured.antt =====
-- What `init` makes of the configuration.
use qt_sss_shttps.Common.{
  ℕ, zero, suc, ◌%◌, ◌<◌, ◌^◌, ◌≡◌, ◌≢◌, refl, sym, ap, ◌∙◌, Bool, false, not, ◌||◌, Option, none,
  some, List, [], ◌∷◌, if◌then◌else◌, length, length-append, arith, Bool-cases, inl, inr,
}
use qt_sss_shttps.Text.{Text, codes, text_eq, contains}
use qt_sss_shttps.Text.Laws.{text_eq_iff}
use qt_sss_shttps.Codec.{Codec}
use qt_sss_shttps.Engine.{Engine}
use qt_sss_shttps.Conf.{Storage, Conf}
use qt_sss_shttps.Conf.Laws.{set_text-IsUpdated}
use qt_sss_shttps.Conf.Settings.{password, set_password, list_bw, is_list_black}
use qt_sss_shttps.Www.Server.{WwwServer, is_blocked_ip, init, set_max_connections}
use qt_sss_shttps.Www.Server.Sessions.{IsSound, Event, run, run-IsSound}
use qt_sss_shttps.Handlers.{Handler}
use qt_sss_shttps.HttpsServer.Setup.{
  Resolver, string_to_host_address, add_address, resolve_list, password_pool, char_at,
  make_password, init_password, HttpsModule, make_server, set_up, init_module,
}

-- Whether a configured host stands for an address.
abbrev pub stands_for : Resolver → Text → Text → Bool
stands_for z ip host = elim (string_to_host_address z host) [ none ↦ false | some i ↦ text_eq i ip ]

abbrev pub some_stands_for : Resolver → Text → List Text → Bool
some_stands_for z ip [] = false
some_stands_for z ip (host ∷ hosts) = stands_for z ip host || some_stands_for z ip hosts

add_address-contains :
    (o : Option Text) (ips : List Text) (ip : Text)
    → contains (add_address o ips) ip
      ≡ (elim o [ none ↦ false | some i ↦ text_eq i ip ] || contains ips ip)
unfolding add_address contains
add_address-contains none ips ip = refl
add_address-contains (some i) ips ip = refl

resolve_list-contains :
    (z : Resolver) (hosts : List Text) (ip : Text)
    → contains (resolve_list z hosts) ip ≡ some_stands_for z ip hosts
unfolding resolve_list contains
resolve_list-contains z [] ip = refl
resolve_list-contains z (host ∷ hosts) ip =
    add_address-contains (string_to_host_address z host) (resolve_list z hosts) ip
    ∙ ap (λ b. stands_for z ip host || b) (resolve_list-contains z hosts ip)

-- The server that the module creates blocks an address exactly when some host of the configured
-- list stands for it, on a black list, or when none does, on a white list.
pub make_server-is_blocked_ip :
    (z : Resolver) (c : Conf) (ip : Text)
    → is_blocked_ip (make_server z c) ip ≡ (
        if is_list_black c
        then some_stands_for z ip (list_bw c)
        else not (some_stands_for z ip (list_bw c)))
unfolding is_blocked_ip make_server init set_max_connections
make_server-is_blocked_ip z c ip =
    ap (λ b. if is_list_black c then b else not b) (resolve_list-contains z (list_bw c) ip)

-- The server that the module creates is sound after any history of fewer than 2^64 connections
-- and disconnections: no more sessions than it allows, none of a blocked address, all identifiers
-- distinct and given out before.
pub make_server-IsSound :
    (z : Resolver) (c : Conf) (es : List Event)
    → length es < 2 ^ 64
    → IsSound (run es (make_server z c))
unfolding make_server init set_max_connections
make_server-IsSound z c es l =
    run-IsSound es (make_server z c) (omega (arith, l))
      (record { bounded = omega arith; allowed = tt; given_out = tt; distinct = tt })

init_module_again_fields :
    (q : Codec) (e : Engine) (z : Resolver) (storage : Storage) (random : ℕ → ℕ) (c : Conf)
    (ips : List Text) (hs : List Handler) (o : Option WwwServer)
    → let m : HttpsModule = record { conf = c; address_list = ips; handlers = hs; server = o } in
      init_module q e z storage random (init_module q e z storage random m)
      ≡ init_module q e z storage random m
unfolding init_module set_up
init_module_again_fields q e z storage random c ips hs none = refl
init_module_again_fields q e z storage random c ips hs (some s) = refl

-- A second init of the module changes nothing.
pub init_module_again :
    (q : Codec) (e : Engine) (z : Resolver) (storage : Storage) (random : ℕ → ℕ) (m : HttpsModule)
    → init_module q e z storage random (init_module q e z storage random m)
      ≡ init_module q e z storage random m
init_module_again q e z storage random m =
    init_module_again_fields q e z storage random m.conf m.address_list m.handlers m.server

pub char_at-length : (t : Text) (i : ℕ) → i < length t → length (char_at t i) ≡ 1
unfolding char_at
char_at-length [] i l = absurd (omega arith)
char_at-length (c ∷ t) zero l = refl
char_at-length (c ∷ t) (suc i) l = char_at-length t i (omega arith)

length-make_password : (random : ℕ → ℕ) (n : ℕ) → length (make_password random n) ≡ n
unfolding make_password
length-make_password random zero = refl
length-make_password random (suc n) =
    let i = random n % length password_pool in
    length-append (make_password random n) (char_at password_pool i)
    ∙ omega (arith, length-make_password random n, char_at-length password_pool i (omega arith))

-- After initAuthentication the password is not the mark - that asks for a new one, whatever the
-- random numbers are and whether the file can be written or not.
pub password-init_password :
    (storage : Storage) (random : ℕ → ℕ) (c : Conf)
    → password (init_password storage random c) ≢ codes "-"
unfolding init_password password set_password
password-init_password storage random c = elim (Bool-cases (text_eq (password c) (codes "-"))) [
  | inl e ↦
      rw (e, init_password)
        (λ k.
          let set =
            (set_text-IsUpdated (codes "sPassword") (codes "-") storage (make_password random 13)
              c).read_back in
          long (make_password random 13) (length-make_password random 13) (sym set ∙ k))
  | inr e ↦
      rw (e, init_password) (λ k. let f = (text_eq_iff (password c) (codes "-")).1 k in cc (e, f))
]
  where
    long : (t : Text) → length t ≡ 13 → t ≢ codes "-"
    long t l k = absurd (let n = ap length k in omega (arith, l, n))
