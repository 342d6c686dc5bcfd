-- ===== src/Tests/Samples.antt =====
-- A codec and an engine that work on ASCII texts, with the laws the theorems ask of a codec.
use qt_sss_shttps.Common.{
  ℕ, ◌+◌, ◌≡◌, refl, Bool, true, false, ◌&&◌, [], ◌∷◌, ◌++◌, map, leb, ◌==◌, arith, if◌then◌else◌,
}
use qt_sss_shttps.Text.{Text, codes, starts_with}
use qt_sss_shttps.Text.Laws.{Lacks}
use qt_sss_shttps.Codec.{Codec, IsCodec, ascii_upper}
use qt_sss_shttps.Engine.{Engine}

unfoldable pub ascii_lower : ℕ → ℕ
ascii_lower c = if leb b'A' c && leb c b'Z' then c + 32 else c

-- Whether the marker with that digit occurs; the flag is whether a per cent sign comes before.
unfoldable pub has_marker : ℕ → Bool → Text → Bool
has_marker d _ [] = false
has_marker d false (c ∷ t) =
    let after = has_marker d true t in
    let others = has_marker d false t in if c == b'%' then after else others
has_marker d true (c ∷ t) = let others = has_marker d false t in if c == d then true else others

unfoldable pub replace_marker : ℕ → Text → Bool → Text → Text
replace_marker d a false [] = []
replace_marker d a true [] = b'%' ∷ []
replace_marker d a false (c ∷ t) =
    let after = replace_marker d a true t in
    let others = replace_marker d a false t in if c == b'%' then after else c ∷ others
replace_marker d a true (c ∷ t) =
    let others = replace_marker d a false t in if c == d then a ++ others else b'%' ∷ c ∷ others

unfoldable pub place : Text → Text → Text
place t a =
    if has_marker b'1' false t then replace_marker b'1' a false t else replace_marker b'2' a false t

abbrev pub ascii_codec : Codec
ascii_codec = record {
  to_upper = map ascii_upper;
  fold_case = map ascii_lower;
  from_utf8 = λ t. t;
  to_utf8 = λ t. t;
  arg = place;
}

has_marker-Lacks :
    (d : ℕ) (p t : Text) → Lacks b'%' p → has_marker d false (p ++ t) ≡ has_marker d false t
unfolding has_marker
has_marker-Lacks d [] t l = refl
has_marker-Lacks d (c ∷ p) t (n, l) = ground (arith, has_marker-Lacks d p t l)

has_marker-plain : (d : ℕ) (p : Text) → Lacks b'%' p → has_marker d false p ≡ false
unfolding has_marker
has_marker-plain d [] l = refl
has_marker-plain d (c ∷ p) (n, l) = ground (arith, has_marker-plain d p l)

replace_marker-Lacks :
    (d : ℕ) (a p t : Text)
    → Lacks b'%' p
    → replace_marker d a false (p ++ t) ≡ p ++ replace_marker d a false t
unfolding replace_marker
replace_marker-Lacks d a [] t l = refl
replace_marker-Lacks d a (c ∷ p) t (n, l) = ground (arith, replace_marker-Lacks d a p t l)

replace_marker-plain : (d : ℕ) (a p : Text) → Lacks b'%' p → replace_marker d a false p ≡ p
unfolding replace_marker
replace_marker-plain d a [] l = refl
replace_marker-plain d a (c ∷ p) (n, l) = ground (arith, replace_marker-plain d a p l)

map-nil : (t : Text) → map ascii_upper t ≡ [] → t ≡ []
map-nil [] e = refl
map-nil (c ∷ t) e = cc

pub ascii_codec-IsCodec : IsCodec ascii_codec
unfolding place has_marker replace_marker
ascii_codec-IsCodec = record {
  upper_ascii = λ t. λ h. refl;
  upper_empty = map-nil;
  from_ascii = λ t. λ h. refl;
  to_ascii = λ t. λ h. refl;
  arg_two = λ p m s a. λ lp lm dm ls ds.
      rw (has_marker-Lacks b'1' p (codes "%1" ++ (m ++ (codes "%2" ++ s))) lp) (
        rw
          (
            replace_marker-Lacks b'1' a p (codes "%1" ++ (m ++ (codes "%2" ++ s))) lp,
            replace_marker-Lacks b'1' a m (codes "%2" ++ s) lm,
            replace_marker-plain b'1' a s ls,
          )
          refl);
  arg_one = λ p s a. λ lp ls ds. rw (has_marker-Lacks b'1' p (codes "%2" ++ s) lp) (
      rw
        (
          has_marker-plain b'1' s ls,
          replace_marker-Lacks b'2' a p (codes "%2" ++ s) lp,
          replace_marker-plain b'2' a s ls,
        )
        refl);
}

-- A pattern matches where the subject begins with it, and the replacement stands in its place.
abbrev pub prefix_engine : Engine
prefix_engine = record {
  is_valid_pattern = λ p. true;
  has_match = λ p s. starts_with s p;
  replace = λ p after s. after;
  url_path = λ t. t;
  url_with_path = λ t path. path;
  file_info = λ path. record {
    exists_at = true;
    is_hidden = false;
    is_file = true;
    is_readable = true;
    is_dir = false;
  };
  clean_path = λ path. path;
}
