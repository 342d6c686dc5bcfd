-- ===== src/Text/Laws.antt =====
-- Laws of the text operations: equality, white space, searching, splitting and joining.
use qt_sss_shttps.Common.{
  ℕ, ◌≡◌, refl, ◌≢◌, ◌↔◌, true, false, none, some, List, [], ◌∷◌, ◌++◌, arith, All, length, ◌==◌,
  ==_iff, Bool-cases, ◌⊎◌, inl, inr, ap,
}
use qt_sss_shttps.Text.{
  Text, text_eq, is_empty, index_of, next_index, is_space, skip_spaces, trim_cons, trim_end,
  trimmed, push_first, split, join,
}

pub text_eq_iff : (s t : Text) → (text_eq s t ≡ true) ↔ (s ≡ t)
unfolding text_eq
text_eq_iff [] [] = (λ _. refl, λ _. refl)
text_eq_iff [] (y ∷ t) = (λ h. cc, λ h. cc)
text_eq_iff (x ∷ s) [] = (λ h. cc, λ h. cc)
text_eq_iff (x ∷ s) (y ∷ t) =
    (λ h. ground (arith, text_eq_iff s t), λ h. ground (arith, text_eq_iff s t))

pub text_eq_self : (s : Text) → text_eq s s ≡ true
text_eq_self s = (text_eq_iff s s).1 refl

pub text_eq_symm : (s t : Text) → text_eq s t ≡ text_eq t s
text_eq_symm s t = ground (arith, text_eq_iff s t, text_eq_iff t s)

pub is_empty_iff : (s : Text) → (is_empty s ≡ true) ↔ (s ≡ [])
unfolding is_empty
is_empty_iff [] = (λ _. refl, λ _. refl)
is_empty_iff (x ∷ s) = (λ h. cc, λ h. cc)

-- No entry of the text is the character.
abbrev pub Lacks : ℕ → Text → Type 0
Lacks c t = All (λ x. x ≢ c) t

pub index_of-append : (s t : Text) (c : ℕ) → Lacks c s → index_of (s ++ (c ∷ t)) c ≡ some (length s)
unfolding index_of next_index
index_of-append [] t c h = ground arith
index_of-append (x ∷ s) t c (p, h) = ground (arith, index_of-append s t c h)

pub index_of-none : (s : Text) (c : ℕ) → Lacks c s → index_of s c ≡ none
unfolding index_of next_index
index_of-none [] c h = refl
index_of-none (x ∷ s) c (p, h) = ground (arith, index_of-none s c h)

-- White space at neither end.
abbrev pub StartsPlain : Text → Type 0
StartsPlain [] = Unit
StartsPlain (c ∷ t) = is_space c ≡ false

abbrev pub EndsPlain : Text → Type 0
EndsPlain [] = Unit
EndsPlain (c ∷ []) = is_space c ≡ false
EndsPlain (c ∷ d ∷ t) = EndsPlain (d ∷ t)

abbrev pub IsTrimmed : Text → Type 0
IsTrimmed t = StartsPlain t × EndsPlain t

pub EndsPlain-append : (t : Text) (c : ℕ) (s : Text) → EndsPlain (c ∷ s) → EndsPlain (t ++ (c ∷ s))
EndsPlain-append [] c s h = h
EndsPlain-append (d ∷ []) c s h = h
EndsPlain-append (d ∷ e ∷ t) c s h = EndsPlain-append (e ∷ t) c s h

pub skip_spaces_of_StartsPlain : (t : Text) → StartsPlain t → skip_spaces t ≡ t
unfolding skip_spaces
skip_spaces_of_StartsPlain [] h = refl
skip_spaces_of_StartsPlain (c ∷ t) h = rw h

pub trim_end_of_EndsPlain : (t : Text) → EndsPlain t → trim_end t ≡ t
unfolding trim_end trim_cons
trim_end_of_EndsPlain [] h = refl
trim_end_of_EndsPlain (c ∷ []) h = rw h
trim_end_of_EndsPlain (c ∷ d ∷ t) h = rw (trim_end_of_EndsPlain (d ∷ t) h)

pub trimmed_of_IsTrimmed : (t : Text) → IsTrimmed t → trimmed t ≡ t
unfolding trimmed
trimmed_of_IsTrimmed t (h, k) = rw (skip_spaces_of_StartsPlain t h) (trim_end_of_EndsPlain t k)

-- Trailing white space goes, whatever stands before it.
abbrev pub IsBlank : Text → Type 0
IsBlank t = All (λ c. is_space c ≡ true) t

trim_end-blank : (b : Text) → IsBlank b → trim_end b ≡ []
unfolding trim_end trim_cons
trim_end-blank [] h = refl
trim_end-blank (c ∷ b) (p, h) = rw (trim_end-blank b h, p)

pub trim_end-append : (t b : Text) → EndsPlain t → IsBlank b → trim_end (t ++ b) ≡ t
unfolding trim_end trim_cons
trim_end-append [] b h k = trim_end-blank b k
trim_end-append (c ∷ []) b h k = rw (trim_end-blank b k, h)
trim_end-append (c ∷ d ∷ t) b h k = rw (trim_end-append (d ∷ t) b h k)

pub trimmed-append :
    (c : ℕ) (t b : Text) → IsTrimmed (c ∷ t) → IsBlank b → trimmed ((c ∷ t) ++ b) ≡ c ∷ t
unfolding trimmed skip_spaces
trimmed-append c t b (p, h) k = rw p (trim_end-append (c ∷ t) b h k)

pub trimmed-skip : (c : ℕ) (t : Text) → is_space c ≡ true → trimmed (c ∷ t) ≡ trimmed t
unfolding trimmed skip_spaces
trimmed-skip c t h = rw h

pub trimmed-blank : (b : Text) → IsBlank b → trimmed b ≡ []
unfolding trimmed skip_spaces trim_end
trimmed-blank [] h = refl
trimmed-blank (c ∷ b) (p, h) = rw p (trimmed-blank b h)

StartsPlain-skip_spaces : (t : Text) → StartsPlain (skip_spaces t)
unfolding skip_spaces
StartsPlain-skip_spaces [] = tt
StartsPlain-skip_spaces (c ∷ t) = elim (Bool-cases (is_space c)) [
  | inl e ↦ rw e (StartsPlain-skip_spaces t)
  | inr e ↦ rw e e
]

StartsPlain-trim_cons : (c : ℕ) (t : Text) → is_space c ≡ false → StartsPlain (trim_cons c t)
unfolding trim_cons
StartsPlain-trim_cons c [] h = rw h h
StartsPlain-trim_cons c (d ∷ t) h = h

StartsPlain-trim_end : (t : Text) → StartsPlain t → StartsPlain (trim_end t)
unfolding trim_end
StartsPlain-trim_end [] h = tt
StartsPlain-trim_end (c ∷ t) h = StartsPlain-trim_cons c (trim_end t) h

pub StartsPlain-trimmed : (t : Text) → StartsPlain (trimmed t)
unfolding trimmed
StartsPlain-trimmed t = StartsPlain-trim_end (skip_spaces t) (StartsPlain-skip_spaces t)

-- A text lacks a character, or is cut at its first occurrence.
pub Lacks-cases :
    (c : ℕ) (t : Text) → Lacks c t ⊎ ((a : Text) × (b : Text) × (t ≡ a ++ (c ∷ b)) × Lacks c a)
Lacks-cases c [] = inl tt
Lacks-cases c (x ∷ t) = elim (Bool-cases (x == c)) [
  | inl e ↦ inr ([], t, ap (λ y. y ∷ t) ((==_iff x c).0 e), tt)
  | inr e ↦ elim (Lacks-cases c t) [
    | inl l ↦ inl ((λ p. cc ((==_iff x c).1 p)), l)
    | inr (a, b, p, l) ↦ inr (x ∷ a, b, ap (λ y. x ∷ y) p, ((λ r. cc ((==_iff x c).1 r)), l))
  ]
]

pub not-Lacks-append : (c : ℕ) (a b : Text) → ¬ Lacks c (a ++ (c ∷ b))
not-Lacks-append c [] b h = h.0 refl
not-Lacks-append c (x ∷ a) b h = not-Lacks-append c a b h.1

pub split-Lacks : (s : Text) (c : ℕ) → Lacks c s → split s c ≡ s ∷ []
unfolding split push_first
split-Lacks [] c h = refl
split-Lacks (x ∷ s) c (p, h) = ground (arith, split-Lacks s c h)

pub split-append : (s t : Text) (c : ℕ) → Lacks c s → split (s ++ (c ∷ t)) c ≡ s ∷ split t c
unfolding split push_first
split-append [] t c h = ground arith
split-append (x ∷ s) t c (p, h) = ground (arith, split-append s t c h)

push_first-ne-nil : (x : ℕ) (ls : List Text) → push_first x ls ≢ []
unfolding push_first
push_first-ne-nil x [] = cc
push_first-ne-nil x (l ∷ ls) = cc

pub split-ne-nil : (s : Text) (c : ℕ) → split s c ≢ []
unfolding split
split-ne-nil [] c = cc
split-ne-nil (x ∷ s) c = ground (arith, push_first-ne-nil x (split s c))

join-push_first : (x c : ℕ) (ls : List Text) → ls ≢ [] → join (push_first x ls) c ≡ x ∷ join ls c
unfolding join push_first
join-push_first x c [] h = absurd (h refl)
join-push_first x c (l ∷ []) h = refl
join-push_first x c (l ∷ m ∷ ls) h = refl

join-nil_cons : (c : ℕ) (ls : List Text) → ls ≢ [] → join ([] ∷ ls) c ≡ c ∷ join ls c
unfolding join
join-nil_cons c [] h = absurd (h refl)
join-nil_cons c (l ∷ ls) h = refl

-- Joining what was split at the same character gives the text back.
pub join-split : (s : Text) (c : ℕ) → join (split s c) c ≡ s
unfolding split
join-split [] c = unfold join in refl
join-split (x ∷ s) c = ground (
  arith,
  join-split s c,
  split-ne-nil s c,
  join-push_first x c (split s c),
  join-nil_cons c (split s c),
)
