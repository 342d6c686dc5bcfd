-- ===== src/Www/Header/RoundTrip.antt =====
-- Reading back a header line that was written as title, colon, space and value.
use qt_sss_shttps.Common.{
  ℕ, ◌≡◌, refl, sym, ap, ◌∙◌, ◌≢◌, [], ◌∷◌, ◌++◌, append_assoc, arith, take-append, drop-suc-append,
  All-append, append-nil,
}
use qt_sss_shttps.Text.{Text, codes, is_empty, is_space, index_of, trimmed, trim_end, skip_spaces}
use qt_sss_shttps.Text.Laws.{
  Lacks, IsTrimmed, IsBlank, EndsPlain, index_of-append, trimmed-append, trimmed_of_IsTrimmed,
  trimmed-skip, EndsPlain-append,
}
use qt_sss_shttps.Codec.{Codec, IsCodec}
use qt_sss_shttps.Www.Header.{
  WwwHeader, IsClean, line_of, split_header, parse_header, header_string,
}

split_header-append :
    (t r : Text)
    → Lacks b':' t
    → split_header (t ++ (b':' ∷ r)) (index_of (t ++ (b':' ∷ r)) b':')
      ≡ record { title = trimmed t; value = trimmed r }
unfolding split_header
split_header-append t r h =
    rw (index_of-append t r b':' h, split_header)
      (rw (take-append t (b':' ∷ r), drop-suc-append t b':' r))

-- A non-empty title, the colon, and what follows up to trailing white space.
parse_header-append :
    (c : ℕ) (t r eol : Text)
    → Lacks b':' (c ∷ t)
    → IsTrimmed (c ∷ t)
    → EndsPlain (b':' ∷ r)
    → IsBlank eol
    → parse_header (((c ∷ t) ++ (b':' ∷ r)) ++ eol) ≡ record { title = c ∷ t; value = trimmed r }
unfolding parse_header is_empty
parse_header-append c t r eol h (p, k) e b =
    rw (trimmed-append c (t ++ (b':' ∷ r)) eol (p, EndsPlain-append (c ∷ t) b':' r e) b) (
      split_header-append (c ∷ t) r h
      ∙ ap (λ x. record { title = x; value = trimmed r }) (trimmed_of_IsTrimmed (c ∷ t) (p, k)))

parse_header-parts :
    (title value eol : Text)
    → title ≢ []
    → Lacks b':' title
    → IsTrimmed title
    → IsTrimmed value
    → IsBlank eol
    → parse_header ((title ++ (codes ": " ++ value)) ++ eol)
      ≡ record { title = title; value = value }
unfolding trimmed trim_end skip_spaces
parse_header-parts [] value eol n h k v b = absurd (n refl)
parse_header-parts (c ∷ t) [] eol n h k v b =
    ap parse_header (
      append_assoc (c ∷ t) (b':' ∷ 32 ∷ []) eol ∙ sym (append_assoc (c ∷ t) (b':' ∷ []) (32 ∷ eol)))
    ∙ parse_header-append c t [] (32 ∷ eol) h k (unfold is_space in refl)
        (unfold is_space in refl, b)
parse_header-parts (c ∷ t) (x ∷ xs) eol n h k v b =
    parse_header-append c t (32 ∷ x ∷ xs) eol h k v.1 b
    ∙ ap (λ y. record { title = c ∷ t; value = y })
        (trimmed-skip 32 (x ∷ xs) (unfold is_space in refl) ∙ trimmed_of_IsTrimmed (x ∷ xs) v)

-- A clean header that is written as title, colon, space and value, followed by any white space,
-- is parsed back.
pub parse_header-line_of :
    (h : WwwHeader) (eol : Text) → IsClean h → IsBlank eol → parse_header (line_of h ++ eol) ≡ h
parse_header-line_of h eol c b =
    parse_header-parts h.title h.value eol c.some_title c.no_colon c.trimmed_title c.trimmed_value b

-- With a codec that behaves as documented, the text of a header whose title holds no per cent
-- sign is its title, colon, space and value, whatever the value holds.
header_string-eq-line_of :
    (q : Codec) (h : WwwHeader) → IsCodec q → Lacks b'%' h.title → header_string q h ≡ line_of h
unfolding header_string
header_string-eq-line_of q h l p =
    ap (λ t. q.arg t h.value)
      (l.arg_two [] (codes ": ") [] h.title tt (omega arith) (refl, tt) tt tt
        ∙ sym (append_assoc h.title (codes ": ") (codes "%2")))
    ∙ l.arg_one (h.title ++ codes ": ") [] h.value
        (All-append (λ x. x ≢ b'%') h.title (codes ": ") p (omega arith)) tt tt
    ∙ ap (λ v. (h.title ++ codes ": ") ++ v) (append-nil h.value)
    ∙ append_assoc h.title (codes ": ") h.value
