-- ===== src/Www/Request/RoundTrip.antt =====
-- When the parser yields a request, and what it yields for a well-formed one.
use qt_sss_shttps.Common.{
  ℕ, suc, ◌≡◌, refl, inl, inr, subst, sym, ap, ◌∙◌, ◌≢◌, ◌↔◌, true, List, [], ◌∷◌, ◌++◌, map, arith,
  length, take-append, drop-suc-append, All, All-append,
}
use qt_sss_shttps.Text.{Text, IsAscii, is_space, index_of, trimmed, split}
use qt_sss_shttps.Text.Laws.{
  Lacks, IsTrimmed, IsBlank, index_of-append, trimmed-append, split-append, split-Lacks, join-split,
  is_empty_iff, split-ne-nil, StartsPlain, StartsPlain-trimmed, Lacks-cases, not-Lacks-append,
}
use qt_sss_shttps.Codec.{Codec, IsCodec, ascii_upper}
use qt_sss_shttps.Hash.{Hash}
use qt_sss_shttps.Www.Header.{WwwHeader}
use qt_sss_shttps.Www.Request.{
  WwwRequest, blank_request, read_headers, body_from, fill_request, first_line, parse_request,
  is_null_request,
}
use qt_sss_shttps.Www.Request.HeaderBlock.{
  IsLine, header_block, header_table, read_headers-header_block, drop-header_block,
}

-- The conditions under which a request can be written on the wire: a method and a target with no
-- space or line feed, ASCII, header lines that are clean.
pub record IsWritable (method target version : Text) (headers : List WwwHeader) (body : Text)
    : Type 0 where
  pub some_method : method ≢ []
  pub method_word : Lacks 32 method × Lacks b'\n' method
  pub target_word : Lacks 32 target × Lacks b'\n' target
  pub version_word : Lacks 32 version × Lacks b'\n' version
  pub line_trimmed : IsTrimmed (method ++ (32 ∷ (target ++ (32 ∷ version))))
  pub ascii_method : IsAscii method
  pub lines : All IsLine headers
  pub ascii_rest : IsAscii (header_block headers body)

unfoldable pub format_request : (method target version : Text) → List WwwHeader → Text → Text
format_request method target version headers body =
    ((method ++ (32 ∷ (target ++ (32 ∷ version)))) ++ (b'\r' ∷ []))
    ++ (b'\n' ∷ header_block headers body)

request_line-Lacks :
    (method target version : Text)
    → Lacks b'\n' method
    → Lacks b'\n' target
    → Lacks b'\n' version
    → Lacks b'\n' ((method ++ (32 ∷ (target ++ (32 ∷ version)))) ++ (b'\r' ∷ []))
request_line-Lacks method target version m t v =
    let P : ℕ → Type 0 = λ x. x ≢ b'\n' in
    All-append P (method ++ (32 ∷ (target ++ (32 ∷ version)))) (b'\r' ∷ [])
      (All-append P method _ m (omega arith, All-append P target _ t (omega arith, v)))
      (omega arith)

split-request_line :
    (method target version : Text)
    → Lacks 32 method
    → Lacks 32 target
    → Lacks 32 version
    → split (method ++ (32 ∷ (target ++ (32 ∷ version)))) 32 ≡ method ∷ target ∷ version ∷ []
split-request_line method target version m t v =
    split-append method (target ++ (32 ∷ version)) 32 m
    ∙ ap (λ l. method ∷ l) (split-append target version 32 t)
    ∙ ap (λ l. method ∷ target ∷ l) (split-Lacks version 32 v)

append-ne-nil : (s : Text) (c : ℕ) (t : Text) → s ++ (c ∷ t) ≢ []
append-ne-nil [] c t = cc
append-ne-nil (x ∷ s) c t = cc

trimmed-request_line : (l eol : Text) → l ≢ [] → IsTrimmed l → IsBlank eol → trimmed (l ++ eol) ≡ l
trimmed-request_line [] eol n h b = absurd (n refl)
trimmed-request_line (c ∷ l) eol n h b = trimmed-append c l eol h b

parse_request-lines :
    (q : Codec) (line rest : Text) (session : ℕ)
    → Lacks b'\n' line
    → parse_request q (line ++ (b'\n' ∷ rest)) session
      ≡ fill_request q
          (blank_request (line ++ (b'\n' ∷ rest)) session)
          rest
          (split (trimmed line) 32)
unfolding parse_request
parse_request-lines q line rest session h =
    rw (index_of-append line rest b'\n' h)
      (rw (take-append line (b'\n' ∷ rest), drop-suc-append line b'\n' rest))

body_from-header_block :
    (q : Codec) (headers : List WwwHeader) (body : Text)
    → IsCodec q
    → IsAscii (header_block headers body)
    → All IsLine headers
    → body_from q (header_block headers body) (suc (length headers)) ≡ body
unfolding body_from
body_from-header_block q headers body c a l =
    rw (c.from_ascii (header_block headers body) a, drop-header_block headers body l)
      (join-split body b'\n')

fill_request-words :
    (q : Codec) (r : WwwRequest) (rest method target : Text) (words : List Text)
    (table : Hash WwwHeader) (n : ℕ)
    → read_headers (split rest b'\n') [] 0 ≡ (table, n)
    → fill_request q r rest (method ∷ target ∷ words) ≡ record r {
      method = q.to_upper method;
      target = target;
      target_original = target;
      headers = table;
      body = body_from q rest n;
    }
unfolding fill_request
fill_request-words q r rest method target words table n e = rw e

-- With a codec that behaves as documented, a request that is written with a clean request line,
-- clean ASCII header lines and any ASCII body is parsed back: its method in upper case, its
-- target, the table of its headers and its body.
pub parse_request-format_request :
    (q : Codec) (method target version : Text) (headers : List WwwHeader) (body : Text)
    (session : ℕ)
    → IsCodec q
    → IsWritable method target version headers body
    → parse_request q (format_request method target version headers body) session
      ≡ record (blank_request (format_request method target version headers body) session) {
        method = map ascii_upper method;
        target = target;
        target_original = target;
        headers = header_table [] headers;
        body = body;
      }
unfolding format_request
parse_request-format_request q method target version headers body session c w =
    let line : Text = method ++ (32 ∷ (target ++ (32 ∷ version))) in
    let raw : Text = format_request method target version headers body in
    parse_request-lines q (line ++ (b'\r' ∷ [])) (header_block headers body) session
      (request_line-Lacks method target version w.method_word.1 w.target_word.1 w.version_word.1)
    ∙ ap (λ l. fill_request q (blank_request raw session) (header_block headers body) (split l 32))
        (trimmed-request_line line (b'\r' ∷ []) (append-ne-nil method 32 _) w.line_trimmed
          (unfold is_space in refl, tt))
    ∙ ap (fill_request q (blank_request raw session) (header_block headers body))
        (split-request_line method target version w.method_word.0 w.target_word.0 w.version_word.0)
    ∙ fill_request-words q (blank_request raw session) _ method target _ _ _
        (read_headers-header_block headers body [] 0 w.lines)
    ∙ ground (
      arith,
      c.upper_ascii method w.ascii_method,
      body_from-header_block q headers body c w.ascii_rest w.lines,
    )

fill_request-word :
    (q : Codec) (r : WwwRequest) (rest line : Text)
    → r.method ≡ []
    → Lacks 32 line
    → is_null_request (fill_request q r rest (split line 32)) ≡ true
unfolding is_null_request fill_request
fill_request-word q r rest line e l = rw (split-Lacks line 32 l) ((is_empty_iff r.method).1 e)

fill_request-method :
    (q : Codec) (r : WwwRequest) (rest method : Text) (words : List Text)
    → words ≢ []
    → (fill_request q r rest (method ∷ words)).method ≡ q.to_upper method
unfolding fill_request
fill_request-method q r rest method [] n = absurd (n refl)
fill_request-method q r rest method (w ∷ ws) n = refl

-- A line with a space, which cannot be its first character.
fill_request-cut :
    (q : Codec) (r : WwwRequest) (rest line a b : Text)
    → IsCodec q
    → line ≡ a ++ (32 ∷ b)
    → Lacks 32 a
    → StartsPlain line
    → is_null_request (fill_request q r rest (split line 32)) ≢ true
unfolding is_null_request is_space
fill_request-cut q r rest line [] b c p l h n =
    let k : StartsPlain (32 ∷ b) = subst StartsPlain p h in cc k
fill_request-cut q r rest line (x ∷ a) b c p l h n =
    let e = fill_request-method q r rest (x ∷ a) (split b 32) (split-ne-nil b 32) in
    let f = ap (λ t. split t 32) p ∙ split-append (x ∷ a) b 32 l in
    cc (
      c.upper_empty (x ∷ a)
        (sym e ∙ sym (ap (λ w. (fill_request q r rest w).method) f) ∙ (is_empty_iff _).0 n))

fill_request-is_null_iff :
    (q : Codec) (r : WwwRequest) (rest line : Text)
    → IsCodec q
    → r.method ≡ []
    → StartsPlain line
    → (is_null_request (fill_request q r rest (split line 32)) ≡ true) ↔ Lacks 32 line
fill_request-is_null_iff q r rest line c e h = elim (Lacks-cases 32 line) [
  | inl l ↦ (λ _. l, λ _. fill_request-word q r rest line e l)
  | inr (a, b, p, l) ↦ (
    λ n. absurd (fill_request-cut q r rest line a b c p l h n),
    λ k. absurd (not-Lacks-append 32 a b (subst (Lacks 32) p k)),
  )
]

-- With a codec that behaves as documented, the parser yields a null request exactly when the
-- first line, trimmed, holds no space.
pub parse_request-is_null_iff :
    (q : Codec) (raw : Text) (session : ℕ)
    → IsCodec q
    → (is_null_request (parse_request q raw session) ≡ true)
      ↔ Lacks 32 (trimmed (first_line raw (index_of raw b'\n')))
unfolding parse_request
parse_request-is_null_iff q raw session c =
    fill_request-is_null_iff q (blank_request raw session) _ _ c refl (StartsPlain-trimmed _)
