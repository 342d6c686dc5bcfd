-- ===== src/Handlers/Handle.antt =====
-- The `handle` methods of the handler classes: the request they leave and the signal they emit.
use qt_sss_shttps.Common.{Bool, true, Option, none, some, not, ◌++◌, if◌then◌else◌}
use qt_sss_shttps.Text.{Text, codes, is_empty}
use qt_sss_shttps.Engine.{Engine}
use qt_sss_shttps.Www.Request.{WwwRequest}
use qt_sss_shttps.Handlers.{Handler, drop, redirect, rewrite_path, file_server}

-- What the module is asked to do with a request.
pub data Answer : Type 0 where
  ignore respond404 : Answer
  respond301 respond_file respond_directory_list : Text → Answer

pub data Signal : Type 0 where
  next_handler : Signal
  answer : Answer → Signal

-- `MHTTPSShandlerBase::handle`, with what the delegate returns, if there is one: nothing is
-- emitted where it took the request.
unfoldable pub base_handle : Bool → Option Bool → Option Signal
base_handle true (some true) = none
base_handle _ _ = some next_handler

abbrev pub path_of : Engine → WwwRequest → Text
path_of e r = e.url_path r.target

abbrev pub rewritten : Engine → Handler → WwwRequest → Text
rewritten e h r = e.replace h.search h.replace_by (path_of e r)

abbrev pub matches : Engine → Handler → WwwRequest → Bool
matches e h r = e.has_match h.search (path_of e r)

unfoldable pub drop_handle : Engine → Handler → WwwRequest → Signal
drop_handle e h r = if matches e h r then answer ignore else next_handler

unfoldable pub redirect_handle : Engine → Handler → WwwRequest → Signal
redirect_handle e h r =
    if matches e h r then answer (respond301 (rewritten e h r)) else next_handler

-- The request that `MHTTPSShandlerRewritePath::handle` leaves.
unfoldable pub rewrite_request : Engine → Handler → WwwRequest → WwwRequest
rewrite_request e h r =
    if matches e h r
    then record r {
      rewrites_done = if h.match_is_final then true else r.rewrites_done;
      target = e.url_with_path r.target (rewritten e h r);
    }
    else r

-- A directory without a usable index file.
unfoldable pub serve_listing : Engine → Handler → Text → Answer
serve_listing e h path =
    if h.list_dirs then respond_directory_list (e.clean_path path ++ codes "/") else respond404

unfoldable pub serve_directory : Engine → Handler → Text → Answer
unfolding serve_listing
serve_directory e h path =
    let index = path ++ (codes "/" ++ h.directory_index) in
    if not (is_empty h.directory_index)
    then (if (e.file_info index).is_file
        then (if (e.file_info index).is_readable
            then respond_file (e.clean_path index)
            else respond404)
        else serve_listing e h path)
    else serve_listing e h path

unfoldable pub serve_path : Engine → Handler → Text → Answer
unfolding serve_directory
serve_path e h path =
    let i = e.file_info path in
    if not i.exists_at
    then respond404
    else if i.is_hidden
    then respond404
    else if i.is_file
    then (if i.is_readable then respond_file (e.clean_path path) else respond404)
    else if i.is_dir
    then serve_directory e h path
    else respond404

unfoldable pub file_server_handle : Engine → Handler → WwwRequest → Signal
file_server_handle e h r =
    if matches e h r then answer (serve_path e h (rewritten e h r)) else next_handler

-- The virtual `handle`.
unfoldable pub handle : Engine → Handler → WwwRequest → WwwRequest × Signal
handle e h r = elim h.class [
  | drop ↦ (r, drop_handle e h r)
  | redirect ↦ (r, redirect_handle e h r)
  | rewrite_path ↦ (rewrite_request e h r, next_handler)
  | file_server ↦ (r, file_server_handle e h r)
]
