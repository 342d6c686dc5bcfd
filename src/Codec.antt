-- ===== src/Codec.antt =====
-- What the program uses of the framework's Unicode tables and codecs: `QString::toUpper`, the case
-- folding of `compare(.., Qt::CaseInsensitive)`, `fromUtf8`, `toUtf8` and `arg`. They are not part
-- of the repository, so they are a parameter, and their documented behaviour a record of laws.
use qt_sss_shttps.Common.{ℕ, ◌-◌, ◌≡◌, Bool, ◌&&◌, List, [], ◌++◌, map, leb, if◌then◌else◌, All}
use qt_sss_shttps.Text.{Text, codes, text_eq, IsAscii}
use qt_sss_shttps.Text.Laws.{Lacks}

pub record Codec : Type 0 where
  pub to_upper : Text → Text
  pub fold_case : Text → Text
  pub from_utf8 : Text → Text
  pub to_utf8 : Text → Text
  pub arg : Text → Text → Text

unfoldable pub ascii_upper : ℕ → ℕ
ascii_upper c = if leb b'a' c && leb c b'z' then c - 32 else c

abbrev pub StartsNoDigit : Text → Type 0
StartsNoDigit t = All (λ c. (leb b'0' c && leb c b'9') ≡ Bool.false) (first t)
  where
    first : Text → Text
    first [] = []
    first (List.◌∷◌ c t) = List.◌∷◌ c []

-- The documented behaviour that the theorems rely on.
pub record IsCodec (q : Codec) : Type 0 where
  pub upper_ascii : (t : Text) → IsAscii t → q.to_upper t ≡ map ascii_upper t
  pub upper_empty : (t : Text) → q.to_upper t ≡ [] → t ≡ []
  pub from_ascii : (t : Text) → IsAscii t → q.from_utf8 t ≡ t
  pub to_ascii : (t : Text) → IsAscii t → q.to_utf8 t ≡ t
  -- The lowest numbered place marker is replaced.
  pub arg_two :
      (p m s a : Text)
      → Lacks b'%' p
      → Lacks b'%' m
      → StartsNoDigit m
      → Lacks b'%' s
      → StartsNoDigit s
      → q.arg (p ++ (codes "%1" ++ (m ++ (codes "%2" ++ s)))) a
        ≡ p ++ (a ++ (m ++ (codes "%2" ++ s)))
  pub arg_one :
      (p s a : Text)
      → Lacks b'%' p
      → Lacks b'%' s
      → StartsNoDigit s
      → q.arg (p ++ (codes "%2" ++ s)) a ≡ p ++ (a ++ s)

-- `compare(.., Qt::CaseInsensitive) == 0`: the case-folded texts agree.
unfoldable pub same_ci : Codec → Text → Text → Bool
same_ci q s t = text_eq (q.fold_case s) (q.fold_case t)
