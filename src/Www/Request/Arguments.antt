-- ===== src/Www/Request/Arguments.antt =====
-- `arguments`, `query` and `fragment` of WWWSrequest.h and WWWSrequest.cpp, over the target.
use qt_sss_shttps.Common.{
  ℕ, ◌==◌, leb, ◌&&◌, ◌||◌, ◌++◌, All, arith, length, length-append, Bool-cases, inl, inr,
  append_assoc, sym, ◌≡◌, refl, ◌∙◌, ap, Bool, true, false, Option, none, some, if◌then◌else◌, List,
  [], ◌∷◌,
}
use qt_sss_shttps.Text.{Text, text_eq}
use qt_sss_shttps.Text.Laws.{text_eq_iff}
use qt_sss_shttps.Hash.{Hash, lookup, insert, lookup-insert}
use qt_sss_shttps.Www.Request.{WwwRequest}

-- The framework's `QUrl` of a target, and the items of the `QUrlQuery` that is made of the whole
-- target.
pub record TargetParser : Type 0 where
  pub query_of : Text → Text
  pub fragment_of : Text → Text
  pub query_items : Text → List (Text × Text)

unfoldable pub fragment : TargetParser → WwwRequest → Text
fragment z r = z.fragment_of r.target

unfoldable pub query : TargetParser → WwwRequest → Text
query z r = z.query_of r.target

-- The loop of `arguments`.
unfoldable pub insert_items : List (Text × Text) → Hash Text → Hash Text
insert_items [] h = h
insert_items ((name, v) ∷ items) h = insert_items items (insert name v h)

-- `arguments`.
unfoldable pub arguments : TargetParser → WwwRequest → Hash Text
arguments z r = insert_items (z.query_items r.target) []

-- The value of the last item of that name.
abbrev pub last_item : Text → List (Text × Text) → Option Text
last_item name [] = none
last_item name ((other, v) ∷ items) = elim (last_item name items) [
  | none ↦ if text_eq other name then some v else none
  | some w ↦ some w
]

or_in : Option Text → Option Text → Option Text
or_in none o = o
or_in (some w) o = some w

or_in-none : (o : Option Text) → or_in o none ≡ o
unfolding or_in
or_in-none none = refl
or_in-none (some w) = refl

or_in-if :
    (o : Option Text) (b : Bool) (v : Text) (p : Option Text)
    → or_in o (if b then some v else p)
      ≡ or_in (elim o [ none ↦ if b then some v else none | some w ↦ some w ]) p
unfolding or_in
or_in-if none true v p = refl
or_in-if none false v p = refl
or_in-if (some w) b v p = refl

lookup-insert_items :
    (name : Text) (items : List (Text × Text)) (h : Hash Text)
    → lookup name (insert_items items h) ≡ or_in (last_item name items) (lookup name h)
unfolding insert_items or_in
lookup-insert_items name [] h = refl
lookup-insert_items name ((other, v) ∷ items) h =
    lookup-insert_items name items (insert other v h)
    ∙ ap (or_in (last_item name items)) (lookup-insert other name v h)
    ∙ or_in-if (last_item name items) (text_eq other name) v (lookup name h)

lookup-arguments :
    (z : TargetParser) (r : WwwRequest) (name : Text)
    → lookup name (arguments z r) ≡ last_item name (z.query_items r.target)
unfolding arguments lookup or_in
lookup-arguments z r name =
    lookup-insert_items name (z.query_items r.target) []
    ∙ or_in-none (last_item name (z.query_items r.target))

-- Characters that the framework takes as they are: letters and digits, and of the others those that
-- a path is written with, and the question mark.
unfoldable pub is_plain_char : ℕ → Bool
is_plain_char c =
    (leb b'0' c && leb c b'9')
    || ((leb b'A' c && leb c b'Z')
        || ((leb b'a' c && leb c b'z') || (c == b'/' || (c == b'.' || (c == b'_' || c == b'?')))))

unfoldable pub is_plain : Text → Bool
is_plain [] = true
is_plain (c ∷ t) = is_plain_char c && is_plain t

-- Items whose names and values are plain.
abbrev pub ArePlain : List (Text × Text) → Type 0
ArePlain = All (λ item. (is_plain item.0 && is_plain item.1) ≡ true)

-- Items as they are written in a query.
unfoldable pub format_item : Text × Text → Text
format_item (name, v) = name ++ (b'=' ∷ v)

unfoldable pub format_more : List (Text × Text) → Text
format_more [] = []
format_more (item ∷ items) = b'&' ∷ (format_item item ++ format_more items)

unfoldable pub format_query : Text × Text → List (Text × Text) → Text
format_query item items = format_item item ++ format_more items

-- What the framework documents of `QUrlQuery`: the names of a query are separated from the values
-- by an equals sign, and the items by an ampersand.
abbrev pub IsQueryParser : TargetParser → Type 0
IsQueryParser z =
    (item : Text × Text) (items : List (Text × Text))
    → ArePlain (item ∷ items)
    → z.query_items (format_query item items) ≡ item ∷ items

is_plain-append : (s t : Text) → is_plain s ≡ true → is_plain t ≡ true → is_plain (s ++ t) ≡ true
unfolding is_plain
is_plain-append [] t h k = k
is_plain-append (c ∷ s) t h k = ground (arith, is_plain-append s t, h, k)

-- The first name, with all that stands before it.
abbrev pub with_path : Text → Text → Text
with_path path name = path ++ (b'?' ∷ name)

with_path-plain :
    (path name : Text)
    → is_plain path ≡ true
    → is_plain name ≡ true
    → is_plain (with_path path name) ≡ true
unfolding is_plain is_plain_char
with_path-plain path name h k = is_plain-append path (b'?' ∷ name) h (ground (arith, k))

format_query-with_path :
    (path name v : Text) (items : List (Text × Text))
    → path ++ (b'?' ∷ format_query (name, v) items) ≡ format_query (with_path path name, v) items
unfolding format_query format_item
format_query-with_path path name v items =
    ap (λ t. path ++ (b'?' ∷ t)) (append_assoc name (b'=' ∷ v) (format_more items))
    ∙ (sym (append_assoc path (b'?' ∷ name) (b'=' ∷ (v ++ format_more items)))
        ∙ sym (append_assoc (with_path path name) (b'=' ∷ v) (format_more items)))

with_path-other : (path name : Text) → text_eq (with_path path name) name ≡ false
with_path-other path name = elim (Bool-cases (text_eq (with_path path name) name)) [
  | inl e ↦ absurd (
      omega (
        arith,
        length-append path (b'?' ∷ name),
        ap length ((text_eq_iff (with_path path name) name).0 e),
      ))
  | inr e ↦ e
]

last_item-other :
    (name other v : Text) (items : List (Text × Text))
    → text_eq other name ≡ false
    → last_item name ((other, v) ∷ items) ≡ last_item name items
last_item-other name other v items n = ground (arith, n)

-- Where the framework takes a query apart as it documents, and path, names and values are plain:
-- the arguments of a request for the path with a query have the value of the last item of each
-- name, but the first item is there under the path, the question mark and its name together, so
-- that under its own name only an item behind it is found.
pub lookup-arguments-with_path :
    (z : TargetParser) (r : WwwRequest) (path name v : Text) (items : List (Text × Text))
    → IsQueryParser z
    → is_plain path ≡ true
    → ArePlain ((name, v) ∷ items)
    → r.target ≡ path ++ (b'?' ∷ format_query (name, v) items)
    → ((wanted : Text)
        → lookup wanted (arguments z r) ≡ last_item wanted ((with_path path name, v) ∷ items))
      × (lookup name (arguments z r) ≡ last_item name items)
lookup-arguments-with_path z r path name v items parses h (k, ks) e =
    let found = λ (wanted : Text).
      lookup-arguments z r wanted
      ∙ ap (last_item wanted) (
          ap z.query_items (e ∙ format_query-with_path path name v items)
          ∙ parses (with_path path name, v) items
              (ground (arith, with_path-plain path name h, k), ks)) in
    (
      found,
      found name ∙ last_item-other name (with_path path name) v items (with_path-other path name),
    )
