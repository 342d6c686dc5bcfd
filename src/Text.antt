-- ===== src/Text.antt =====
-- Texts and byte arrays as lists of code units, with the operations of the framework's string and
-- byte array classes that the program calls.
pub mod Laws
pub mod Decimal
use Prim.Native.Char.{code}
use Prim.Native.String.{String}
use qt_sss_shttps.Common.{
  ℕ, zero, suc, ◌+◌, ◌<◌, Bool, true, false, ◌&&◌, ◌||◌, Option, none, some, List, [], ◌∷◌, ◌++◌,
  map, ◌==◌, leb, if◌then◌else◌, take, drop, length, ◌-◌,
}

-- A `QByteArray` is its bytes, a `QString` its UTF-16 code units.
abbrev pub Text : Type 0
Text = List ℕ

-- A literal of the source; all of them are ASCII.
abbrev pub codes : String → Text
codes String.[] = []
codes (String.◌∷◌ c s) = code c ∷ codes s

unfoldable pub text_eq : Text → Text → Bool
text_eq [] [] = true
text_eq (x ∷ s) (y ∷ t) = x == y && text_eq s t
text_eq _ _ = false

unfoldable pub is_empty : Text → Bool
is_empty [] = true
is_empty (_ ∷ _) = false

-- `QStringList::contains`.
unfoldable pub contains : List Text → Text → Bool
contains [] t = false
contains (s ∷ ss) t = text_eq s t || contains ss t

-- `startsWith`.
unfoldable pub starts_with : Text → Text → Bool
starts_with t [] = true
starts_with [] (_ ∷ _) = false
starts_with (x ∷ t) (p ∷ ps) = x == p && starts_with t ps

-- `endsWith` with a single character.
unfoldable pub ends_with : Text → ℕ → Bool
ends_with [] c = false
ends_with (x ∷ []) c = x == c
ends_with (x ∷ y ∷ t) c = ends_with (y ∷ t) c

unfoldable pub next_index : Option ℕ → Option ℕ
next_index none = none
next_index (some i) = some (suc i)

-- `indexOf` with a single character; -1 is `none`.
unfoldable pub index_of : Text → ℕ → Option ℕ
index_of [] c = none
index_of (x ∷ t) c = let rest = index_of t c in if x == c then some 0 else next_index rest

-- The white space of `QByteArray::trimmed`: tab, line feed, vertical tab, form feed, carriage
-- return and space.
unfoldable pub is_space : ℕ → Bool
is_space c = c == 32 || (leb 9 c && leb c 13)

unfoldable pub skip_spaces : Text → Text
skip_spaces [] = []
skip_spaces (c ∷ t) = if is_space c then skip_spaces t else c ∷ t

unfoldable pub trim_cons : ℕ → Text → Text
trim_cons c [] = if is_space c then [] else c ∷ []
trim_cons c (d ∷ t) = c ∷ d ∷ t

unfoldable pub trim_end : Text → Text
trim_end [] = []
trim_end (c ∷ t) = trim_cons c (trim_end t)

unfoldable pub trimmed : Text → Text
trimmed t = trim_end (skip_spaces t)

unfoldable pub push_first : ℕ → List Text → List Text
push_first x [] = (x ∷ []) ∷ []
push_first x (l ∷ ls) = (x ∷ l) ∷ ls

-- `split` at a character; the result is never empty.
unfoldable pub split : Text → ℕ → List Text
split [] c = [] ∷ []
split (x ∷ t) c = let rest = split t c in if x == c then [] ∷ rest else push_first x rest

-- `QStringList::join` with a character.
unfoldable pub join : List Text → ℕ → Text
join [] c = []
join (l ∷ []) c = l
join (l ∷ m ∷ ls) c = l ++ (c ∷ join (m ∷ ls) c)

-- The scan of `replace`: `skip` characters belong to an occurrence that was replaced.
unfoldable pub replace_from : (before after : Text) → (skip : ℕ) → Text → Text
replace_from before after skip [] = []
replace_from before after (suc skip) (c ∷ t) = replace_from before after skip t
replace_from before after zero (c ∷ t) =
    let replaced = replace_from before after (length before - 1) t in
    let kept = replace_from before after zero t in
    if starts_with (c ∷ t) before then after ++ replaced else c ∷ kept

-- `replace` of every occurrence of a text that is not empty, from left to right.
unfoldable pub replace_all : (before after : Text) → Text → Text
unfolding replace_from
replace_all before after t = replace_from before after zero t

abbrev pub IsAscii : Text → Type 0
IsAscii [] = Unit
IsAscii (c ∷ t) = (c < 128) × IsAscii t
