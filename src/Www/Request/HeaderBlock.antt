-- ===== src/Www/Request/HeaderBlock.antt =====
-- The header loop over lines that were written by the rules of HTTP.
use qt_sss_shttps.Common.{
  ℕ, suc, ◌+◌, ◌≡◌, refl, ap, ◌∙◌, ◌≢◌, true, false, List, [], ◌∷◌, ◌++◌, arith, drop, length, All,
  All-append,
}
use qt_sss_shttps.Text.{Text, is_empty, is_space, trimmed, skip_spaces, trim_end, split}
use qt_sss_shttps.Text.Laws.{Lacks, split-append, is_empty_iff}
use qt_sss_shttps.Hash.{Hash, insert}
use qt_sss_shttps.Www.Header.{WwwHeader, IsClean, line_of, is_null, parse_header}
use qt_sss_shttps.Www.Header.RoundTrip.{parse_header-line_of}
use qt_sss_shttps.Www.Request.{read_headers}

-- The table that a list of header lines leaves: a later line replaces an earlier one of its title.
unfoldable pub header_table : Hash WwwHeader → List WwwHeader → Hash WwwHeader
header_table table [] = table
header_table table (h ∷ hs) = header_table (insert h.title h table) hs

-- A header that can stand on a line of its own.
pub record IsLine (h : WwwHeader) : Type 0 where
  pub clean : IsClean h
  pub one_line : Lacks b'\n' (line_of h)

-- Header lines with their line ends, the empty line, and the body.
unfoldable pub header_block : List WwwHeader → Text → Text
header_block [] body = b'\r' ∷ b'\n' ∷ body
header_block (h ∷ hs) body = (line_of h ++ (b'\r' ∷ [])) ++ (b'\n' ∷ header_block hs body)

is_null-IsClean : (h : WwwHeader) → IsClean h → is_null h ≡ false
unfolding is_null
is_null-IsClean h c = ground (arith, is_empty_iff h.title, c.some_title)

Lacks-eol : (h : WwwHeader) → IsLine h → Lacks b'\n' (line_of h ++ (b'\r' ∷ []))
Lacks-eol h l = All-append (λ x. x ≢ b'\n') (line_of h) (b'\r' ∷ []) l.one_line (omega arith)

split-header_block :
    (h : WwwHeader) (hs : List WwwHeader) (body : Text)
    → IsLine h
    → split (header_block (h ∷ hs) body) b'\n'
      ≡ (line_of h ++ (b'\r' ∷ [])) ∷ split (header_block hs body) b'\n'
unfolding header_block
split-header_block h hs body l =
    split-append (line_of h ++ (b'\r' ∷ [])) (header_block hs body) b'\n' (Lacks-eol h l)

split-end : (body : Text) → split (header_block [] body) b'\n' ≡ (b'\r' ∷ []) ∷ split body b'\n'
unfolding header_block
split-end body = split-append (b'\r' ∷ []) body b'\n' (omega arith)

blank_line : is_empty (parse_header (b'\r' ∷ [])).title ≡ true
unfolding parse_header trimmed skip_spaces trim_end is_space is_empty
blank_line = refl

read_headers-stop :
    (line : Text) (lines : List Text) (table : Hash WwwHeader) (n : ℕ)
    → is_null (parse_header line) ≡ true
    → read_headers (line ∷ lines) table n ≡ (table, n + 1)
unfolding read_headers
read_headers-stop line lines table n e = rw e

read_headers-next :
    (h : WwwHeader) (line : Text) (lines : List Text) (table : Hash WwwHeader) (n : ℕ)
    → parse_header line ≡ h
    → is_null h ≡ false
    → read_headers (line ∷ lines) table n ≡ read_headers lines (insert h.title h table) (n + 1)
unfolding read_headers
read_headers-next h line lines table n p e = rw p (rw e)

pub read_headers-header_block :
    (hs : List WwwHeader) (body : Text) (table : Hash WwwHeader) (n : ℕ)
    → All IsLine hs
    → read_headers (split (header_block hs body) b'\n') table n
      ≡ (header_table table hs, n + suc (length hs))
unfolding header_table
read_headers-header_block [] body table n h =
    ap (λ lines. read_headers lines table n) (split-end body)
    ∙ read_headers-stop (b'\r' ∷ []) (split body b'\n') table n (unfold is_null in blank_line)
    ∙ ground arith
read_headers-header_block (h ∷ hs) body table n (l, ls) =
    ap (λ lines. read_headers lines table n) (split-header_block h hs body l)
    ∙ read_headers-next h _ _ table n
        (parse_header-line_of h (b'\r' ∷ []) l.clean (unfold is_space in refl, tt))
        (is_null-IsClean h l.clean)
    ∙ read_headers-header_block hs body (insert h.title h table) (n + 1) ls
    ∙ ap (λ k. (header_table (insert h.title h table) hs, k)) (omega arith)

pub drop-header_block :
    (hs : List WwwHeader) (body : Text)
    → All IsLine hs
    → drop (suc (length hs)) (split (header_block hs body) b'\n') ≡ split body b'\n'
drop-header_block [] body h = rw (split-end body)
drop-header_block (h ∷ hs) body (l, ls) =
    rw (split-header_block h hs body l) (drop-header_block hs body ls)
