-- ===== src/AppControl/Page/Served.antt =====
-- The answers of the module's pages: their status, their paths and the nonce.
use qt_sss_shttps.Common.{
  ℕ, zero, suc, ◌%◌, ◌≡◌, refl, ap, ◌∙◌, Bool, true, Option, none, some, not, if◌then◌else◌, [],
  ◌∷◌, ◌++◌, length, length-append, arith, All, All-append, ◌==◌, leb, ◌&&◌, ◌||◌, Option-cases,
  Bool-cases, inl, inr,
}
use qt_sss_shttps.Text.{Text, codes, text_eq, starts_with}
use qt_sss_shttps.Codec.{Codec}
use qt_sss_shttps.Engine.{Engine}
use qt_sss_shttps.Www.Request.{WwwRequest, is_get}
use qt_sss_shttps.Www.Server.{WwwServer, is_valid_path, init, set_max_connections, has_prefix}
use qt_sss_shttps.Www.Server.Respond.{Machine, response404, response_code}
use qt_sss_shttps.Www.Server.Respond.Prepared.{sent_status, finalized-text, response_file-status}
use qt_sss_shttps.Handlers.Handle.{path_of}
use qt_sss_shttps.HttpsServer.Setup.{Resolver, char_at}
use qt_sss_shttps.HttpsServer.Setup.Configured.{char_at-length}
use qt_sss_shttps.Wss.{WssServer}
use qt_sss_shttps.AppControl.{AppControl, make_pages}
use qt_sss_shttps.AppControl.Page.{
  main_page, rooted, resource_path, with_index, nonce_pool, make_nonce, fill_page, answer_main,
  answer_path, on_www_request, prepare_page,
}

-- The status for a path, from the files alone.
abbrev pub file_status : Engine → Machine → Text → ℕ
file_status e m path =
    if (e.file_info path).is_readable
    then elim (m.open_file path) [ none ↦ 404 | some f ↦ 200 ]
    else 404

-- The status of a request: none where it is dropped.
abbrev pub page_status : Codec → Engine → Machine → (encrypted : Bool) → WwwRequest → Option ℕ
page_status q e m encrypted r =
    if not encrypted
    then some 404
    else if is_get q r
    then some (file_status e m (with_index e (resource_path (path_of e r))))
    else none

module _ (q : Codec) (e : Engine) (m : Machine) (random : ℕ → ℕ) (w : WwwServer)
    (s : WssServer) where
  answer_main-status :
      (path : Text)
      → sent_status q m w (prepare_page m (answer_main q random (some s) (m.open_file path)))
        ≡ some (elim (m.open_file path) [ none ↦ 404 | some f ↦ 200 ])
  unfolding prepare_page answer_main response404 response_code
  answer_main-status path = elim (Option-cases (m.open_file path)) [
    | inl n ↦ rw (n, answer_main) (ap some (finalized-text q m w response404 refl))
    | inr (f, n) ↦
        rw (n, answer_main)
          (ap some (finalized-text q m w (response_code (fill_page q random s f) 200) refl))
  ]

  answer_path-status :
      (path : Text)
      → sent_status q m w (prepare_page m (answer_path q e m random (some s) path))
        ≡ some (file_status e m path)
  unfolding prepare_page answer_path response404
  answer_path-status path = elim (Bool-cases (e.file_info path).is_readable) [
    | inr n ↦ rw (n, answer_path) (ap some (finalized-text q m w response404 refl))
    | inl n ↦ elim (Bool-cases (text_eq path main_page)) [
      | inl k ↦ rw (n, k, answer_path) (answer_main-status path)
      | inr k ↦ rw (n, k, answer_path) (response_file-status q m w path)
    ]
  ]

  -- A request to the module, once its web socket server is there, is answered with 404 where the
  -- connection is not encrypted or where the resource it names can not be read or opened, and
  -- with 200 where it can; an encrypted request with another method than GET is dropped.
  pub on_www_request-status :
      (a : AppControl) (encrypted : Bool) (r : WwwRequest)
      → a.sockets ≡ some s
      → sent_status q m w (prepare_page m (on_www_request q e m random a encrypted r))
        ≡ page_status q e m encrypted r
  unfolding prepare_page on_www_request response404
  on_www_request-status a encrypted r h = elim (Bool-cases encrypted) [
    | inr n ↦ rw (n, on_www_request) (ap some (finalized-text q m w response404 refl))
    | inl n ↦ elim (Bool-cases (is_get q r)) [
      | inr k ↦ rw (n, k, on_www_request) refl
      | inl k ↦ rw (n, k, h, on_www_request) (answer_path-status _)
    ]
  ]

char_at-All : (P : ℕ → Type 0) (t : Text) (i : ℕ) → All P t → All P (char_at t i)
unfolding char_at
char_at-All P [] i a = tt
char_at-All P (c ∷ t) zero (p, a) = (p, tt)
char_at-All P (c ∷ t) (suc i) (p, a) = char_at-All P t i a

-- Digits, letters, dots and underscores.
unfoldable pub is_nonce_char : ℕ → Bool
is_nonce_char c =
    (leb b'0' c && leb c b'9')
    || ((leb b'a' c && leb c b'z') || ((leb b'A' c && leb c b'Z') || (c == b'.' || c == b'_')))

pool-All : All (λ c. is_nonce_char c ≡ true) nonce_pool
unfolding is_nonce_char
pool-All = search

make_nonce-All : (random : ℕ → ℕ) (n : ℕ) → All (λ c. is_nonce_char c ≡ true) (make_nonce random n)
unfolding make_nonce
make_nonce-All random zero = tt
make_nonce-All random (suc n) =
    All-append _ (make_nonce random n) _ (make_nonce-All random n)
      (char_at-All _ nonce_pool (random n % length nonce_pool) pool-All)

length-make_nonce : (random : ℕ → ℕ) (n : ℕ) → length (make_nonce random n) ≡ n
unfolding make_nonce
length-make_nonce random zero = refl
length-make_nonce random (suc n) =
    let i = random n % length nonce_pool in
    length-append (make_nonce random n) (char_at nonce_pool i)
    ∙ omega (arith, length-make_nonce random n, char_at-length nonce_pool i (omega arith))

-- Whatever the random numbers are, the nonce of the main page has 65 characters, all of them
-- letters, digits, dots or underscores, so that it can stand in the page as it is.
pub make_nonce-IsPlain :
    (random : ℕ → ℕ)
    → (length (make_nonce random 65) ≡ 65)
      × All (λ c. is_nonce_char c ≡ true) (make_nonce random 65)
make_nonce-IsPlain random = (length-make_nonce random 65, make_nonce-All random 65)

rooted-starts_with : (path : Text) → starts_with (rooted path) (codes "/") ≡ true
unfolding rooted starts_with
rooted-starts_with path = ground arith

starts_with-nil : (t : Text) → starts_with t [] ≡ true
unfolding starts_with
starts_with-nil [] = refl
starts_with-nil (c ∷ t) = refl

under_slash :
    (t : Text)
    → starts_with t (codes "/") ≡ true
    → starts_with (codes ":/www" ++ t) (codes ":/www/") ≡ true
unfolding starts_with
under_slash [] e = ground arith
under_slash (c ∷ t) e = ground arith

resource_path-starts_with : (path : Text) → starts_with (resource_path path) (codes ":/www/") ≡ true
unfolding resource_path
resource_path-starts_with path = elim (Bool-cases (text_eq (rooted path) (codes "/"))) [
  | inl e ↦
      rw (e, resource_path)
        (under_slash (codes "/moduleAppControl.html") (unfold starts_with in refl))
  | inr e ↦ rw (e, resource_path) (under_slash (rooted path) (rooted-starts_with path))
]

-- Every path that the handler asks for lies below the base path of the server that initWWWserver
-- makes.
pub resource_path-valid :
    (z : Resolver) (a : AppControl) (path : Text)
    → is_valid_path (make_pages z a) (resource_path path) ≡ true
unfolding is_valid_path has_prefix make_pages init set_max_connections
resource_path-valid z a path = ground (arith, resource_path-starts_with path)
