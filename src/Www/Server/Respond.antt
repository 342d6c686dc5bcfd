-- ===== src/Www/Server/Respond.antt =====
-- The `respond` methods and `ignore` of WWWSserver.cpp.
pub mod Prepared
use qt_sss_shttps.Common.{
  ℕ, ◌≤◌, ◌≡◌, refl, Bool, true, false, Option, none, some, not, if◌then◌else◌, List, [], ◌∷◌, ◌++◌,
  take, length, length-take, arith,
}
use qt_sss_shttps.Text.{Text, codes, is_empty, starts_with, ends_with}
use qt_sss_shttps.Codec.{Codec}
use qt_sss_shttps.Www.Socket.{Socket, close}
use qt_sss_shttps.Www.Response.{OpenFile, WwwResponse, new_response, add_header, default_header}
use qt_sss_shttps.Www.Response.Sending.{start_sending}
use qt_sss_shttps.Handlers.Handle.{
  Answer, ignore, respond404, respond301, respond_file, respond_directory_list,
}
use qt_sss_shttps.Www.Server.{WwwServer, is_valid_path}

-- What the methods read of the machine they run on: the entries of a directory, as `entryList`
-- with the filters of the source yields them, what opening a file yields, the MIME type of a path
-- and the current date.
pub record Machine : Type 0 where
  pub entry_list : Text → List Text
  pub open_file : Text → Option OpenFile
  pub mime_type : Text → Text
  pub date : Text

-- The response as it is handed to `startSending`.
unfoldable pub with_server : Codec → WwwServer → WwwResponse → WwwResponse
with_server q s r = record r {
  headers = default_header q (codes "Server") s.server_string r.headers;
}

-- `respond(WWWSresponse *)`.
unfoldable pub respond : Codec → Machine → WwwServer → WwwResponse → Socket → WwwResponse × Socket
respond q m s r socket =
    start_sending q (m.open_file r.path_file) (m.mime_type r.path_file) m.date (with_server q s r)
      socket

-- The responses that the methods below prepare.
unfoldable pub response_code : Text → ℕ → WwwResponse
response_code body code = record new_response { body = body; status_code = code }

unfoldable pub response200 : Codec → (body content_type : Text) → WwwResponse
response200 q body content_type = record new_response {
  body = body;
  headers = add_header q (codes "Content-Type") content_type [];
}

abbrev pub not_found_body : Text
not_found_body =
    codes "<html><head><title>404 Not Found</title></head><body>404 Not Found<body></html>"

unfoldable pub response404 : WwwResponse
response404 = record new_response { status_code = 404; body = not_found_body }

unfoldable pub response301 : Codec → Text → WwwResponse
response301 q url = record new_response {
  status_code = 301;
  headers = add_header q (codes "Location") url [];
}

abbrev pub listing_head : Text
listing_head =
    codes
      "<!DOCTYPE html>\r\n<html>\n<head>\n<title>QtSssShttps by Luke@SwissalpS.ws - HTTPS-Server</title>\n<meta http-equiv=\"content-type\" content=\"text/html; charset=UTF-8\"></head>\n<body style=\"background-color:tan;\">\n<div id=\"dirList\" class=\"dirListDIV\"><ol class=\"dirListOL\">"

abbrev pub listing_foot : Text
listing_foot = codes "</ol></div><div id=\"footerDiv\"><p></p></div></body>\n</html>\n"

unfoldable pub base_path : Text → Text
base_path path = if ends_with path b'/' then path else path ++ codes "/"

unfoldable pub listing_item : Text → Text → Text
listing_item base name =
    codes "<li class=\"dirListLI\"><a href=\""
    ++ (base ++ (name ++ (codes "\">" ++ (name ++ codes "</a></li>"))))

unfoldable pub listing_items : Text → List Text → Text
listing_items base [] = []
listing_items base (name ∷ names) =
    if starts_with name (codes ".")
    then listing_items base names
    else listing_item base name ++ listing_items base names

-- The page that `respondDirectoryList` builds. `target` is the path of the request's original
-- target; at most 2000 entries are looked at.
unfoldable pub listing : Text → List Text → Text
listing target entries =
    listing_head ++ (listing_items (base_path target) (take 2000 entries) ++ listing_foot)

unfoldable pub response_directory_list :
    Codec → Machine → WwwServer → (target path : Text) → WwwResponse
response_directory_list q m s target path =
    if not (is_valid_path s path)
    then response404
    else response200 q (listing target (m.entry_list path)) (codes "text/html")

unfoldable pub response_file : Machine → Text → WwwResponse
response_file m path = elim (m.open_file path) [
  | none ↦ response404
  | some _ ↦ record new_response { path_file = path }
]

unfoldable pub response_json : Codec → Text → WwwResponse
response_json q json = response200 q json (codes "application/json")

-- The response that each answer of a handler is sent with; `none` is `ignore`, which sends nothing.
unfoldable pub prepare : Codec → Machine → WwwServer → (target : Text) → Answer → Option WwwResponse
prepare q m s target ignore = none
prepare q m s target respond404 = some response404
prepare q m s target (respond301 url) = some (response301 q url)
prepare q m s target (respond_file path) = some (response_file m path)
prepare q m s target (respond_directory_list path) =
    some (response_directory_list q m s target path)

-- `ignore`: the connection is dropped and what was not flushed is lost; nothing was written.
unfoldable pub abort_socket : Socket → Socket
abort_socket socket = close socket
