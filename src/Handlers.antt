-- ===== src/Handlers.antt =====
-- The request handlers of the HTTPS module: MHTTPSShandlerBase and its subclasses Redirect,
-- RewritePath, Drop and FileServer.
pub mod Methods
pub mod Handle
use qt_sss_shttps.Common.{
  ℕ, Bool, true, false, Option, none, some, List, [], ◌∷◌, ◌++◌, if◌then◌else◌, ◌&&◌,
}
use qt_sss_shttps.Text.{Text, codes, is_empty, text_eq, ends_with}
use qt_sss_shttps.Codec.{Codec}
use qt_sss_shttps.Engine.{Engine, FileInfo}
use qt_sss_shttps.Json.{Fields, value, to_bool, to_string, to_array}
use qt_sss_shttps.Www.Request.{WwwRequest}
use Methods.{init_methods, method_names}

-- The classes that can be configured.
pub data HandlerClass : Type 0 where
  drop redirect rewrite_path file_server : HandlerClass

-- The members of all classes; `search` is the pattern of `oREsearch`.
pub record Handler : Type 0 where
  pub class : HandlerClass
  pub config : Fields
  pub path_base : Text
  pub methods : List Text
  pub is_active : Bool
  pub search : Text
  pub replace_by : Text
  pub list_dirs : Bool
  pub directory_index : Text
  pub match_is_final : Bool

-- The constructors of the classes, all by way of the base class.
unfoldable pub new_handler : HandlerClass → Fields → Handler
new_handler class config = record {
  class = class;
  config = config;
  path_base = [];
  methods = [];
  is_active = to_bool false (value (codes "bActive") config);
  search = [];
  replace_by = [];
  list_dirs = false;
  directory_index = [];
  match_is_final = false;
}

unfoldable pub has_methods : List Text → Bool
has_methods [] = false
has_methods (_ ∷ _) = true

-- `initMethods`: a handler without any method is switched off.
unfoldable pub set_methods : Codec → Handler → Handler
set_methods q h =
    let ms = init_methods (method_names q (to_array (value (codes "aMethods") h.config))) in
    if h.is_active then record h { methods = ms; is_active = has_methods ms } else h

-- `MHTTPSShandlerBase::init`.
unfoldable pub base_init : Codec → Handler → Handler
unfolding set_methods
base_init q h =
    if h.is_active
    then set_methods q (record h { path_base = to_string [] (value (codes "sDirRoot") h.config) })
    else h

-- `MHTTPSShandlerRedirect::init`. The pattern is set also where the base class has switched the
-- handler off.
unfoldable pub redirect_init : Codec → Engine → Handler → Handler
unfolding base_init
redirect_init q e h =
    let b = base_init q h in
    let pattern_text = to_string [] (value (codes "sSearch") h.config) in
    if h.is_active
    then (if e.is_valid_pattern pattern_text
        then record b {
          search = pattern_text;
          replace_by = to_string [] (value (codes "sReplace") h.config);
        }
        else record b { search = pattern_text; is_active = false })
    else h

unfoldable pub rewrite_init : Codec → Engine → Handler → Handler
unfolding redirect_init
rewrite_init q e h =
    let r = redirect_init q e h in
    if r.is_active
    then record r {
      match_is_final = to_bool false (value (codes "bLeaveRewritesOnMatch") h.config);
    }
    else r

unfoldable pub file_server_init : Codec → Engine → Handler → Handler
unfolding redirect_init
file_server_init q e h =
    let r = redirect_init q e h in
    if r.is_active
    then record r {
      list_dirs = to_bool false (value (codes "bListDirectories") h.config);
      directory_index = to_string [] (value (codes "sDirectoryIndex") h.config);
    }
    else r

-- The virtual `init`.
unfoldable pub init : Codec → Engine → Handler → Handler
init q e h = elim h.class [
  | drop ↦ redirect_init q e h
  | redirect ↦ redirect_init q e h
  | rewrite_path ↦ rewrite_init q e h
  | file_server ↦ file_server_init q e h
]

-- `setPathBase`.
unfoldable pub set_path_base : Text → Handler → Handler
set_path_base path h = record h {
  path_base = if ends_with path b'/' then path else path ++ codes "/";
}

unfoldable pub is_rewrite_handler_class : HandlerClass → Bool
is_rewrite_handler_class rewrite_path = true
is_rewrite_handler_class _ = false
