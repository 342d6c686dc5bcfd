-- ===== src/Www/Response.antt =====
-- WWWSresponse.h and WWWSresponse.cpp: the response, its header table and its preparation.
pub mod Status
pub mod Headers
pub mod Sending
pub mod Delivery
pub mod Defaults
pub mod Answers
pub mod Closing
pub mod Failing
use qt_sss_shttps.Common.{
  ℕ, Bool, true, false, not, Option, none, some, List, [], ◌∷◌, ◌++◌, if◌then◌else◌, length, ℤ, pos,
  to_int32, is_negative, abs_value,
}
use qt_sss_shttps.Text.{Text, codes, is_empty, text_eq}
use qt_sss_shttps.Text.Decimal.{decimal}
use qt_sss_shttps.Codec.{Codec, same_ci}
use qt_sss_shttps.Hash.{Hash, insert, remove}
use qt_sss_shttps.Www.Header.{WwwHeader, is_null, header_string}
use Status.{string_for_status_code}

pub data TransportType : Type 0 where
  send_headers_only send_text send_text_multipart send_file : TransportType

-- A file that is open for reading.
pub record OpenFile : Type 0 where
  pub content : Text
  pub position : ℕ
  pub is_sequential : Bool

-- `has_request`: `pRequest` is not null. `file` is `none` while `oFile` is closed. `timer`: a timer
-- runs. `dying`: `deleteLater` was called.
pub record WwwResponse : Type 0 where
  pub has_request : Bool
  pub body : Text
  pub path_file : Text
  pub file : Option OpenFile
  pub headers : Hash WwwHeader
  pub status_code : ℕ
  pub transport : TransportType
  pub timer : Bool
  pub count : ℕ
  pub content_length : ℤ
  pub buffer_size : ℕ
  pub dying : Bool

-- The constructor, for a request.
abbrev pub new_response : WwwResponse
new_response = record {
  has_request = true;
  body = [];
  path_file = [];
  file = none;
  headers = [];
  status_code = 200;
  transport = send_headers_only;
  timer = false;
  count = 0;
  content_length = pos 0;
  buffer_size = 16_000;
  dying = false;
}

-- `hasHeader`: the key that equals the title but for case, or the empty text.
unfoldable pub has_header : Codec → Hash WwwHeader → Text → Text
has_header q [] title = []
has_header q ((key, h) ∷ hs) title = if same_ci q title key then key else has_header q hs title

-- `hspHeaders.value(sKey)->setValue(sValue)`.
unfoldable pub set_value : Text → Text → Hash WwwHeader → Hash WwwHeader
set_value key value [] = []
set_value key value ((k, h) ∷ hs) =
    if text_eq k key then (k, record h { value = value }) ∷ hs else (k, h) ∷ set_value key value hs

-- Both overloads of `addHeader`.
unfoldable pub add_header : Codec → Text → Text → Hash WwwHeader → Hash WwwHeader
add_header q title value hs =
    let key = has_header q hs title in
    if is_empty title
    then hs
    else if is_empty key
    then insert title (record { title = title; value = value }) hs
    else set_value key value hs

unfoldable pub drop_header : Codec → Text → Hash WwwHeader → Hash WwwHeader
drop_header q title hs =
    let key = has_header q hs title in if is_empty key then hs else remove key hs

-- The first part of `finalize`. `opened` is what `oFile.open` and `mime` what the MIME database
-- yields for the path.
unfoldable pub choose_transport : Codec → Option OpenFile → Text → WwwResponse → WwwResponse
choose_transport q opened mime r =
    if not (is_empty r.path_file)
    then elim opened [
      | none ↦ record r {
        body = [];
        transport = send_text;
        headers = add_header q (codes "Content-Type") (codes "text/html") r.headers;
        status_code = 404;
      }
      | some f ↦ record r {
        file = some f;
        transport = send_file;
        headers = add_header q (codes "Content-Type") mime r.headers;
      }
    ]
    else if is_empty r.body
    then record r { transport = send_headers_only }
    else record r { transport = send_text }

-- `if (this->hasHeader(sTitle).isEmpty()) this->addHeader(sTitle, sValue);`
unfoldable pub default_header : Codec → Text → Text → Hash WwwHeader → Hash WwwHeader
default_header q title value hs =
    if is_empty (has_header q hs title) then add_header q title value hs else hs

-- The defaults of `finalize`, in its order.
abbrev pub default_table : List (Text × Text)
default_table =
    (codes "Connection", codes "close")
    ∷ (codes "Content-Encoding", codes "utf8")
    ∷ (codes "Content-Type", codes "text/html")
    ∷ (codes "Pragma", codes "no-cache")
    ∷ (codes "Server", codes "SwissalpS WWWSresponse")
    ∷ []

unfoldable pub set_defaults : Codec → List (Text × Text) → Hash WwwHeader → Hash WwwHeader
set_defaults q [] hs = hs
set_defaults q ((title, value) ∷ ds) hs = set_defaults q ds (default_header q title value hs)

unfoldable pub file_size : Option OpenFile → ℕ
file_size none = 0
file_size (some f) = length f.content

-- The switch over `eTT`; `iContentLength` is an `int`.
unfoldable pub length_for : TransportType → WwwResponse → ℤ
length_for send_headers_only r = pos 0
length_for send_file r = to_int32 (file_size r.file)
length_for _ r = pos (length r.body)

unfoldable pub length_header : Codec → ℤ → Hash WwwHeader → Hash WwwHeader
length_header q n hs =
    if is_negative n
    then drop_header q (codes "Content-Length") hs
    else add_header q (codes "Content-Length") (decimal (abs_value n)) hs

unfoldable pub set_length : Codec → WwwResponse → WwwResponse
set_length q r =
    let n = length_for r.transport r in
    record r {
      content_length = n;
      headers = length_header q n (set_defaults q default_table r.headers);
    }

unfoldable pub finalize : Codec → Option OpenFile → Text → WwwResponse → WwwResponse
finalize q opened mime r = set_length q (choose_transport q opened mime r)

unfoldable pub header_lines : Codec → Hash WwwHeader → Text
header_lines q [] = codes "\r\n"
header_lines q ((key, h) ∷ hs) = header_string q h ++ (codes "\r\n" ++ header_lines q hs)

unfoldable pub status_line : Codec → ℕ → Text
status_line q code =
    q.arg (q.arg (codes "HTTP/1.1 %1 %2\r\n") (decimal code)) (string_for_status_code code)

-- `fullHeaderString`, which also sets the date.
unfoldable pub with_date : Codec → Text → WwwResponse → WwwResponse
with_date q date r = record r { headers = add_header q (codes "Date") date r.headers }

unfoldable pub full_header_string : Codec → Text → WwwResponse → Text
full_header_string q date r =
    let dated = with_date q date r in
    status_line q dated.status_code ++ header_lines q dated.headers
