-- ===== src/Handlers/Methods.antt =====
-- `MHTTPSShandlerBase::initMethods`: the methods that a handler takes, from its configuration.
pub mod Selection
pub mod Taken
use qt_sss_shttps.Common.{ℕ, Bool, true, false, List, [], ◌∷◌, ◌++◌, map, if◌then◌else◌, ◌||◌, drop}
use qt_sss_shttps.Text.{Text, codes, text_eq, contains, starts_with}
use qt_sss_shttps.Codec.{Codec}
use qt_sss_shttps.Json.{Json, to_string}

-- `allGenerllyUsedHTTPmethods`.
abbrev pub all_methods : List Text
all_methods =
    codes "GET"
    ∷ codes "HEAD"
    ∷ codes "POST"
    ∷ codes "PUT"
    ∷ codes "DELETE"
    ∷ codes "CONNECT"
    ∷ codes "OPTIONS"
    ∷ codes "TRACE"
    ∷ codes "PATCH"
    ∷ []

-- `ojaMethods.at(i).toString().toUpper()` for each entry.
unfoldable pub method_names : Codec → List Json → List Text
method_names q vs = map (λ v. q.to_upper (to_string [] v)) vs

-- The two lists that the first loop prepares, and `bAllAdded`.
pub record MethodLists : Type 0 where
  pub all_added : Bool
  pub not_methods : List Text
  pub methods : List Text

-- One round of the first loop.
unfoldable pub prepare_method : Text → MethodLists → MethodLists
prepare_method m l =
    if text_eq m (codes "*")
    then record l { all_added = true }
    else if starts_with m (codes "^")
    then (if contains all_methods (drop 1 m)
        then record l { not_methods = l.not_methods ++ (m ∷ []) }
        else l)
    else if l.all_added
    then l
    else if contains all_methods m
    then record l { methods = l.methods ++ (m ∷ []) }
    else l

unfoldable pub prepare_methods : List Text → MethodLists → MethodLists
prepare_methods [] l = l
prepare_methods (m ∷ ms) l = prepare_methods ms (prepare_method m l)

-- One round of the second loop.
unfoldable pub append_method : Text → List Text → List Text
append_method m ms = if contains ms m || contains ms (b'^' ∷ m) then ms else ms ++ (m ∷ [])

unfoldable pub append_methods : List Text → List Text → List Text
append_methods [] ms = ms
append_methods (m ∷ valid) ms = append_methods valid (append_method m ms)

-- With no entry at all, every method is added.
unfoldable pub start_lists : List Text → MethodLists
start_lists [] = record { all_added = true; not_methods = []; methods = [] }
start_lists (_ ∷ _) = record { all_added = false; not_methods = []; methods = [] }

unfoldable pub finish_methods : MethodLists → List Text
finish_methods l =
    append_methods (if l.all_added then l.methods ++ all_methods else l.methods) l.not_methods

unfoldable pub init_methods : List Text → List Text
init_methods names = finish_methods (prepare_methods names (start_lists names))
