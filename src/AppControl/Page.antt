-- ===== src/AppControl/Page.antt =====
-- `onWWWSrequest`: the pages of the module, and the main page with its address and nonce.
pub mod Served
use qt_sss_shttps.Common.{
  ℕ, zero, suc, ◌+◌, ◌%◌, ◌<◌, ◌≡◌, refl, ap, ◌∙◌, Bool, true, false, Option, none, some, not,
  if◌then◌else◌, List, [], ◌∷◌, ◌++◌, length, length-append, arith, All, All-append, ◌==◌,
  get_elem?, Option-cases, Bool-cases, inl, inr,
}
use qt_sss_shttps.Text.{Text, codes, text_eq, starts_with, replace_all}
use qt_sss_shttps.Text.Decimal.{decimal}
use qt_sss_shttps.Codec.{Codec}
use qt_sss_shttps.Engine.{Engine}
use qt_sss_shttps.Www.Request.{WwwRequest, is_get}
use qt_sss_shttps.Www.Response.{OpenFile, WwwResponse}
use qt_sss_shttps.Www.Server.{WwwServer, is_valid_path, init, set_max_connections, has_prefix}
use qt_sss_shttps.Www.Server.Respond.{Machine, response404, response_file, response_code}
use qt_sss_shttps.Www.Server.Respond.Prepared.{sent_status, finalized-text, response_file-status}
use qt_sss_shttps.Handlers.Handle.{path_of}
use qt_sss_shttps.HttpsServer.Setup.{Resolver, char_at}
use qt_sss_shttps.Wss.{WssServer}
use qt_sss_shttps.AppControl.{AppControl, make_pages}

abbrev pub main_page : Text
main_page = codes ":/www/moduleAppControl.html"

-- The rewriting of the path.
unfoldable pub rooted : Text → Text
rooted path = if starts_with path (codes "/") then path else codes "/" ++ path

unfoldable pub resource_path : Text → Text
resource_path path =
    codes ":/www"
    ++ (if text_eq (rooted path) (codes "/") then codes "/moduleAppControl.html" else rooted path)

unfoldable pub with_index : Engine → Text → Text
with_index e path = if (e.file_info path).is_dir then path ++ codes "/index.html" else path

abbrev pub nonce_pool : Text
nonce_pool = codes "abcdefghijklmnopqrstuvwxyz0123456789._ABCDEFGHIJKLMNOPQRSTUVWXYZ"

-- The loop that makes a nonce, for the numbers that `qrand` yields: it goes on while the nonce has
-- at most 64 characters, which is 65 rounds.
unfoldable pub make_nonce : (random : ℕ → ℕ) → (rounds : ℕ) → Text
make_nonce random zero = []
make_nonce random (suc n) = make_nonce random n ++ char_at nonce_pool (random n % length nonce_pool)

unfoldable pub sockets_uri : WssServer → Text
sockets_uri s = codes "wss://" ++ (s.host ++ (codes ":" ++ decimal s.port))

-- The body of the main page.
unfoldable pub fill_page : Codec → (random : ℕ → ℕ) → WssServer → OpenFile → Text
fill_page q random s f =
    replace_all (codes "##nonce_SwissalpS_REPLACER_TAG##") (make_nonce random 65) (
      replace_all (codes "##wssURI_SwissalpS_REPLACER_TAG##") (sockets_uri s)
        (q.from_utf8 f.content))

-- What the module does with a request; `null_pointer` where there is no web socket server to name.
pub data PageAnswer : Type 0 where
  page404 dropped null_pointer : PageAnswer
  page_file filled : Text → PageAnswer

unfoldable pub answer_main :
    Codec → (random : ℕ → ℕ) → Option WssServer → Option OpenFile → PageAnswer
answer_main q random sockets none = page404
answer_main q random none (some f) = null_pointer
answer_main q random (some s) (some f) = filled (fill_page q random s f)

unfoldable pub answer_path :
    Codec → Engine → Machine → (random : ℕ → ℕ) → Option WssServer → Text → PageAnswer
answer_path q e m random sockets path =
    if not (e.file_info path).is_readable
    then page404
    else if not (text_eq path main_page)
    then page_file path
    else answer_main q random sockets (m.open_file path)

unfoldable pub on_www_request :
    Codec
    → Engine
    → Machine
    → (random : ℕ → ℕ) → AppControl
    → (encrypted : Bool) → WwwRequest
    → PageAnswer
on_www_request q e m random a encrypted r =
    if not encrypted
    then page404
    else if not (is_get q r)
    then dropped
    else answer_path q e m random a.sockets (with_index e (resource_path (path_of e r)))

-- The response that the server prepares for it.
unfoldable pub prepare_page : Machine → PageAnswer → Option WwwResponse
prepare_page m page404 = some response404
prepare_page m dropped = none
prepare_page m null_pointer = none
prepare_page m (page_file path) = some (response_file m path)
prepare_page m (filled body) = some (response_code body 200)
