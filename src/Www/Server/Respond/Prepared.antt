-- ===== src/Www/Server/Respond/Prepared.antt =====
-- The responses that WWWSserver prepares for the answers of the handlers.
use qt_sss_shttps.Common.{
  ℕ, ◌≡◌, refl, ◌∙◌, Option, none, some, if◌then◌else◌, List, [], ◌∷◌, ◌++◌, map, arith,
  Option-cases, Bool-cases, inl, inr, ap,
}
use qt_sss_shttps.Text.{Text, codes, starts_with}
use qt_sss_shttps.Text.Laws.{is_empty_iff}
use qt_sss_shttps.Codec.{Codec}
use qt_sss_shttps.Www.Response.{
  OpenFile, WwwResponse, new_response, finalize, choose_transport, set_length,
}
use qt_sss_shttps.Handlers.Handle.{
  Answer, ignore, respond404, respond301, respond_file, respond_directory_list,
}
use qt_sss_shttps.Www.Server.{WwwServer, is_valid_path}
use qt_sss_shttps.Www.Server.Respond.{
  Machine, with_server, prepare, response404, response301, response200, response_file,
  response_directory_list, listing, listing_items, listing_item,
}

-- The status of an answer, from the answer alone.
abbrev pub expected_status : Machine → WwwServer → Answer → Option ℕ
expected_status m s ignore = none
expected_status m s respond404 = some 404
expected_status m s (respond301 url) = some 301
expected_status m s (respond_file path) = elim (m.open_file path) [
  | none ↦ some 404
  | some _ ↦ some 200
]
expected_status m s (respond_directory_list path) =
    if is_valid_path s path then some 200 else some 404

abbrev pub finalized : Codec → Machine → WwwServer → WwwResponse → WwwResponse
finalized q m s r =
    finalize q (m.open_file r.path_file) (m.mime_type r.path_file) (with_server q s r)

abbrev pub sent_status : Codec → Machine → WwwServer → Option WwwResponse → Option ℕ
sent_status q m s none = none
sent_status q m s (some r) = some (finalized q m s r).status_code

pub finalized-text :
    (q : Codec) (m : Machine) (s : WwwServer) (r : WwwResponse)
    → r.path_file ≡ []
    → (finalized q m s r).status_code ≡ r.status_code
unfolding finalize choose_transport set_length with_server
finalized-text q m s r e = ground (arith, is_empty_iff r.path_file)

finalized-file :
    (q : Codec) (m : Machine) (s : WwwServer) (path : Text) (f : OpenFile)
    → (finalize q
        (some f)
        (m.mime_type path)
        (with_server q s (record new_response { path_file = path }))).status_code
      ≡ 200
unfolding finalize choose_transport set_length with_server
finalized-file q m s path f = ground arith

response_file-none :
    (m : Machine) (path : Text) → m.open_file path ≡ none → response_file m path ≡ response404
unfolding response_file
response_file-none m path e = rw (e, response_file) refl

response_file-some :
    (m : Machine) (path : Text) (f : OpenFile)
    → m.open_file path ≡ some f
    → response_file m path ≡ record new_response { path_file = path }
unfolding response_file
response_file-some m path f e = rw (e, response_file) refl

pub response_file-status :
    (q : Codec) (m : Machine) (s : WwwServer) (path : Text)
    → sent_status q m s (some (response_file m path))
      ≡ some (elim (m.open_file path) [ none ↦ 404 | some f ↦ 200 ])
unfolding response404
response_file-status q m s path = elim (Option-cases (m.open_file path)) [
  | inl e ↦
      rw (response_file-none m path e) (rw e (ap some (finalized-text q m s response404 refl)))
  | inr (f, e) ↦ rw (response_file-some m path f e) (rw e (ap some (finalized-file q m s path f)))
]

-- Every answer of a handler is sent with the status it calls for: 404, 301, 200 for a file that
-- opens and 404 for one that does not, 200 for the list of a directory below a base path and 404
-- for any other, and no response where the request is ignored.
pub prepare-sent_status :
    (q : Codec) (m : Machine) (s : WwwServer) (target : Text) (a : Answer)
    → sent_status q m s (prepare q m s target a) ≡ expected_status m s a
unfolding prepare response404 response301 response200 response_directory_list
prepare-sent_status q m s target ignore = refl
prepare-sent_status q m s target respond404 = ap some (finalized-text q m s response404 refl)
prepare-sent_status q m s target (respond301 url) =
    ap some (finalized-text q m s (response301 q url) refl)
prepare-sent_status q m s target (respond_file path) = elim (Option-cases (m.open_file path)) [
  | inl e ↦ rw (e, expected_status) (response_file-status q m s path ∙ rw e refl)
  | inr (f, e) ↦ rw (e, expected_status) (response_file-status q m s path ∙ rw e refl)
]
prepare-sent_status q m s target (respond_directory_list path) =
    elim (Bool-cases (is_valid_path s path)) [
      | inl e ↦ rw e (
          ap some (
            finalized-text q m s
              (response200 q (listing target (m.entry_list path)) (codes "text/html")) refl))
      | inr e ↦ rw e (ap some (finalized-text q m s response404 refl))
    ]

-- The names that are listed.
abbrev pub visible : List Text → List Text
visible [] = []
visible (name ∷ names) =
    if starts_with name (codes ".") then visible names else name ∷ visible names

abbrev pub concat : List Text → Text
concat [] = []
concat (t ∷ ts) = t ++ concat ts

-- The list of a directory has one item for each name that does not begin with a dot, in the order
-- of the names, and nothing else.
pub listing_items-visible :
    (base : Text) (names : List Text)
    → listing_items base names ≡ concat (map (listing_item base) (visible names))
unfolding listing_items
listing_items-visible base [] = refl
listing_items-visible base (name ∷ names) = ground (arith, listing_items-visible base names)
