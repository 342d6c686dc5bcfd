-- ===== src/Hash.antt =====
-- `QHash<QString, V>` as an association list, in the order in which `keys()` lists it. That order
-- is not documented: an insertion at the end stands for any place.
use qt_sss_shttps.Common.{
  ◌≡◌, refl, Option, none, some, List, [], ◌∷◌, if◌then◌else◌, arith, Bool, true, false, ◌||◌, All,
  Bool-cases, inl, inr, if-both, subst,
}
use mathlib.Core.Option.{some_inj}
use qt_sss_shttps.Text.{Text, text_eq}
use qt_sss_shttps.Text.Laws.{text_eq_iff}

abbrev pub Hash {ℓ} : Type ℓ → Type ℓ
Hash V = List (Text × V)

module _ {ℓ} {V : Type ℓ} where
  unfoldable pub lookup : Text → Hash V → Option V
  lookup k [] = none
  lookup k ((j, v) ∷ h) = if text_eq j k then some v else lookup k h

  -- An entry with an equal key is replaced.
  unfoldable pub insert : Text → V → Hash V → Hash V
  insert k v [] = (k, v) ∷ []
  insert k v ((j, w) ∷ h) = if text_eq j k then (k, v) ∷ h else (j, w) ∷ insert k v h

  unfoldable pub remove : Text → Hash V → Hash V
  remove k [] = []
  remove k ((j, w) ∷ h) = if text_eq j k then h else (j, w) ∷ remove k h

  unfoldable pub keys : Hash V → List Text
  keys [] = []
  keys ((j, w) ∷ h) = j ∷ keys h

  -- `contains`.
  unfoldable pub has_key : Text → Hash V → Bool
  has_key k [] = false
  has_key k ((j, w) ∷ h) = text_eq j k || has_key k h

  pub lookup-insert :
      (k j : Text) (v : V) (h : Hash V)
      → lookup j (insert k v h) ≡ (if text_eq k j then some v else lookup j h)
  unfolding lookup insert
  lookup-insert k j v [] = refl
  lookup-insert k j v ((i, w) ∷ h) =
      ground (arith, text_eq_iff k j, text_eq_iff i k, text_eq_iff i j, lookup-insert k j v h)

  pub lookup_of_key : (k : Text) (h : Hash V) → has_key k h ≡ true → (v : V) × (lookup k h ≡ some v)
  unfolding lookup has_key
  lookup_of_key k [] e = absurd (cc e)
  lookup_of_key k ((j, w) ∷ h) e = elim (Bool-cases (text_eq j k)) [
    | inl f ↦ (w, rw f refl)
    | inr f ↦ let (v, g) = lookup_of_key k h (rw f at e) in (v, rw f g)
  ]

  pub lookup-has_key : (k : Text) (h : Hash V) (v : V) → lookup k h ≡ some v → has_key k h ≡ true
  unfolding lookup has_key
  lookup-has_key k [] v e = absurd (cc e)
  lookup-has_key k ((j, w) ∷ h) v e = ground (arith, e, lookup-has_key k h v)

  module _ {κ} (P : V → Type κ) where
    pub lookup-All :
        (k : Text) (h : Hash V) (v : V) → All (λ e. P e.1) h → lookup k h ≡ some v → P v
    unfolding lookup
    lookup-All k [] v a e = absurd (cc e)
    lookup-All k ((j, w) ∷ h) v (p, a) e = elim (Bool-cases (text_eq j k)) [
      | inl f ↦ subst P (some_inj.0 (rw f at e)) p
      | inr f ↦ lookup-All k h v a (rw f at e)
    ]

    pub insert-All :
        (k : Text) (v : V) (h : Hash V) → P v → All (λ e. P e.1) h → All (λ e. P e.1) (insert k v h)
    unfolding insert
    insert-All k v [] p a = (p, tt)
    insert-All k v ((j, w) ∷ h) p (q, a) =
        if-both (All (λ e. P e.1)) (text_eq j k) _ _ (p, a) (q, insert-All k v h p a)

    pub remove-All : (k : Text) (h : Hash V) → All (λ e. P e.1) h → All (λ e. P e.1) (remove k h)
    unfolding remove
    remove-All k [] a = tt
    remove-All k ((j, w) ∷ h) (q, a) =
        if-both (All (λ e. P e.1)) (text_eq j k) _ _ a (q, remove-All k h a)

  pub keys-insert :
      (k : Text) (v : V) (h : Hash V) → has_key k h ≡ true → keys (insert k v h) ≡ keys h
  unfolding keys insert has_key
  keys-insert k v [] e = absurd (cc e)
  keys-insert k v ((j, w) ∷ h) e = ground (arith, text_eq_iff j k, keys-insert k v h)

  pub has_key-remove :
      (k other : Text) (h : Hash V)
      → text_eq k other ≡ false
      → has_key other (remove k h) ≡ has_key other h
  unfolding has_key remove
  has_key-remove k other [] e = refl
  has_key-remove k other ((j, w) ∷ h) e =
      ground
        (arith, text_eq_iff j k, text_eq_iff k other, text_eq_iff j other, has_key-remove k other h)
