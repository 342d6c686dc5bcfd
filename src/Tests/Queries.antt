-- ===== src/Tests/Queries.antt =====
-- The arguments of a request, with a parser of queries that behaves as documented.
use qt_sss_shttps.Common.{
  ℕ, ◌≡◌, refl, ap, ◌∙◌, true, ◌&&◌, ◌==◌, List, [], ◌∷◌, ◌++◌, append-nil, append_assoc, arith,
  if◌then◌else◌,
}
use qt_sss_shttps.Text.{Text, codes}
use qt_sss_shttps.Hash.{lookup}
use qt_sss_shttps.Www.Request.{WwwRequest, blank_request}
use qt_sss_shttps.Www.Request.Arguments.{
  TargetParser, arguments, last_item, with_path, is_plain, is_plain_char, ArePlain, IsQueryParser,
  format_item, format_more, format_query, lookup-arguments-with_path,
}

-- The item that a query starts with, and the others.
abbrev Parsed : Type 0
Parsed = (Text × Text) × List (Text × Text)

read_char : ℕ → Parsed → Parsed
read_char c ((name, v), items) =
    if c == b'&'
    then (([], []), (name, v) ∷ items)
    else if c == b'='
    then (([], name), items)
    else ((c ∷ name, v), items)

read_query : Text → Parsed
read_query [] = (([], []), [])
read_query (c ∷ t) = read_char c (read_query t)

abbrev query_parser : TargetParser
query_parser = record {
  query_of = λ t. [];
  fragment_of = λ t. [];
  query_items = λ t. let p = read_query t in p.0 ∷ p.1;
}

abbrev before : Text → Parsed → Parsed
before t p = ((t ++ p.0.0, p.0.1), p.1)

read_char-plain : (c : ℕ) (p : Parsed) → is_plain_char c ≡ true → read_char c p ≡ before (c ∷ []) p
unfolding read_char is_plain_char
read_char-plain c ((name, v), items) h = ground (arith, h)

read_query-plain : (t s : Text) → is_plain t ≡ true → read_query (t ++ s) ≡ before t (read_query s)
unfolding read_query is_plain
read_query-plain [] s h = refl
read_query-plain (c ∷ t) s h =
    ap (read_char c) (read_query-plain t s (ground (arith, h)))
    ∙ read_char-plain c (before t (read_query s)) (ground (arith, h))

read_query-item :
    (name v rest : Text) (items : List (Text × Text))
    → (is_plain name && is_plain v) ≡ true
    → read_query rest ≡ (([], []), items)
    → read_query (format_item (name, v) ++ rest) ≡ ((name, v), items)
unfolding format_item read_query read_char
read_query-item name v rest items h e =
    ap read_query (append_assoc name (b'=' ∷ v) rest)
    ∙ (read_query-plain name (b'=' ∷ (v ++ rest)) (ground (arith, h))
        ∙ (ap (λ p. before name (read_char b'=' p))
              (read_query-plain v rest (ground (arith, h)) ∙ ap (before v) e)
            ∙ λ i. ((append-nil name i, append-nil v i), items)))

read_query-more :
    (items : List (Text × Text))
    → ArePlain items
    → read_query (format_more items) ≡ (([], []), items)
unfolding format_more read_query read_char
read_query-more [] a = refl
read_query-more ((name, v) ∷ items) (h, a) =
    ap (read_char b'&')
      (read_query-item name v (format_more items) items h (read_query-more items a))

query_parser-IsQueryParser : IsQueryParser query_parser
unfolding format_query
query_parser-IsQueryParser (name, v) items (h, a) =
    ap (λ (p : Parsed). p.0 ∷ p.1)
      (read_query-item name v (format_more items) items h (read_query-more items a))

abbrev search : WwwRequest
search = record (blank_request [] 0) { target = codes "/find?s=foo&t=bar" }

lookup-arguments-with_path_example :
    ((wanted : Text)
      → lookup wanted (arguments query_parser search)
        ≡ last_item wanted
            ((with_path (codes "/find") (codes "s"), codes "foo") ∷ (codes "t", codes "bar") ∷ []))
    × (lookup (codes "s") (arguments query_parser search)
        ≡ last_item (codes "s") ((codes "t", codes "bar") ∷ []))
unfolding is_plain is_plain_char format_query format_item format_more
lookup-arguments-with_path_example =
    lookup-arguments-with_path query_parser search (codes "/find") (codes "s") (codes "foo")
      ((codes "t", codes "bar") ∷ []) query_parser-IsQueryParser refl (refl, (refl, tt)) refl
