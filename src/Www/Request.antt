-- ===== src/Www/Request.antt =====
-- WWWSrequest.h and WWWSrequest.cpp: a request, and its parser over the bytes that were read.
pub mod HeaderBlock
pub mod RoundTrip
pub mod Arguments
use qt_sss_shttps.Common.{
  ℕ, suc, ◌+◌, ◌-◌, Bool, true, false, Option, none, some, List, [], ◌∷◌, if◌then◌else◌, take, drop,
}
use qt_sss_shttps.Text.{Text, codes, is_empty, index_of, trimmed, split, join}
use qt_sss_shttps.Codec.{Codec, same_ci}
use qt_sss_shttps.Hash.{Hash, insert}
use qt_sss_shttps.Www.Header.{WwwHeader, is_null, parse_header}

-- `session` is the identifier of the session that `pSession` points to.
pub record WwwRequest : Type 0 where
  pub session : ℕ
  pub raw : Text
  pub body : Text
  pub method : Text
  pub target : Text
  pub target_original : Text
  pub max_request_size : ℕ
  pub headers : Hash WwwHeader
  pub rewrites_done : Bool
  pub handler_index : ℕ

-- The members as the initialiser list leaves them.
abbrev pub blank_request : Text → ℕ → WwwRequest
blank_request raw session = record {
  session = session;
  raw = raw;
  body = [];
  method = [];
  target = [];
  target_original = [];
  max_request_size = 2_000_000;
  headers = [];
  rewrites_done = false;
  handler_index = 0;
}

-- `aubRaw.mid(0, iNextMarker)`: all of it where there is no line feed.
unfoldable pub first_line : Text → Option ℕ → Text
first_line raw none = raw
first_line raw (some i) = take i raw

-- `aubRaw.mid(iNextMarker + 1)`: all of it again where there is no line feed.
unfoldable pub after_first_line : Text → Option ℕ → Text
after_first_line raw none = raw
after_first_line raw (some i) = drop (suc i) raw

-- The header loop. The count includes the line that ends it.
unfoldable pub read_headers : List Text → Hash WwwHeader → ℕ → Hash WwwHeader × ℕ
read_headers [] headers n = (headers, n)
read_headers (line ∷ lines) headers n =
    let h = parse_header line in
    let rest = read_headers lines (insert h.title h headers) (n + 1) in
    if is_null h then (headers, n + 1) else rest

unfoldable pub body_from : Codec → Text → ℕ → Text
body_from q rest n = join (drop n (split (q.from_utf8 rest) b'\n')) b'\n'

unfoldable pub fill_request : Codec → WwwRequest → Text → List Text → WwwRequest
fill_request q r rest (method ∷ target ∷ _) =
    let (headers, n) = read_headers (split rest b'\n') [] 0 in
    record r {
      method = q.to_upper method;
      target = target;
      target_original = target;
      headers = headers;
      body = body_from q rest n;
    }
-- fewer than two parts
fill_request q r rest _ = r

-- The constructor.
unfoldable pub parse_request : Codec → Text → ℕ → WwwRequest
unfolding fill_request read_headers body_from first_line after_first_line
parse_request q raw session =
    let next_marker = index_of raw b'\n' in
    fill_request q (blank_request raw session) (after_first_line raw next_marker)
      (split (trimmed (first_line raw next_marker)) 32)

unfoldable pub is_null_request : WwwRequest → Bool
is_null_request r = is_empty r.method

unfoldable pub is_get : Codec → WwwRequest → Bool
is_get q r = same_ci q r.method (codes "GET")

unfoldable pub is_post : Codec → WwwRequest → Bool
is_post q r = same_ci q r.method (codes "POST")

unfoldable pub body_of : WwwRequest → Text
body_of r = if is_null_request r then [] else r.body
