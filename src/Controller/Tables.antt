-- ===== src/Controller/Tables.antt =====
-- The table of the modules, seen through the look-up of a name.
use qt_sss_shttps.Common.{
  ◌≡◌, refl, ap, ◌∙◌, sym, true, false, some, [], ◌∷◌, All, arith, Bool-cases, inl, inr, subst,
}
use mathlib.Core.Option.{some_inj}
use qt_sss_shttps.Text.{Text, text_eq, contains}
use qt_sss_shttps.Text.Laws.{text_eq_iff, text_eq_self}
use qt_sss_shttps.Hash.{Hash, lookup, insert, keys, has_key, lookup-insert, lookup-has_key}
use qt_sss_shttps.Controller.Loading.{Distinct, has_key-contains}

module _ {M : Type 0} where
  -- What holds of each name and the module that it is looked up as.
  abbrev pub Every : (Text → M → Type 0) → Hash M → Type 0
  Every R h = (uid : Text) (m : M) → lookup uid h ≡ some m → R uid m

  pub Every-insert :
      (R S : Text → M → Type 0) (uid : Text) (n : M) (h : Hash M)
      → S uid n
      → ((other : Text) (m : M) → text_eq uid other ≡ false → R other m → S other m)
      → Every R h
      → Every S (insert uid n h)
  Every-insert R S uid n h s k a other m e = elim (Bool-cases (text_eq uid other)) [
    | inl f ↦
        subst (S other) (some_inj.0 (rw f at (sym (lookup-insert uid other n h) ∙ e)))
          (subst (λ u. S u n) ((text_eq_iff uid other).0 f) s)
    | inr f ↦ k other m f (a other m (rw f at (sym (lookup-insert uid other n h) ∙ e)))
  ]

  pub All-Every : (R : Text → M → Type 0) (h : Hash M) → All (λ e. R e.0 e.1) h → Every R h
  unfolding lookup
  All-Every R [] a uid m e = absurd (cc e)
  All-Every R ((j, w) ∷ h) (r, a) uid m e = elim (Bool-cases (text_eq j uid)) [
    | inl f ↦ subst (λ u. R u m) ((text_eq_iff j uid).0 f) (subst (R j) (some_inj.0 (rw f at e)) r)
    | inr f ↦ All-Every R h a uid m (rw f at e)
  ]

  pub Every-All :
      (R : Text → M → Type 0) (h : Hash M) → Distinct (keys h) → Every R h → All (λ e. R e.0 e.1) h
  unfolding lookup keys
  Every-All R [] d a = tt
  Every-All R ((j, w) ∷ h) (n, d) a = (
    a j w (rw (text_eq_self j) refl),
    Every-All R h d (λ uid m e. a uid m (
        ground (arith, e, n, text_eq_iff j uid, lookup-has_key uid h m e, has_key-contains uid h))),
  )

  pub has_key_by_keys :
      (uid : Text) (g h : Hash M) → keys g ≡ keys h → has_key uid h ≡ true → has_key uid g ≡ true
  has_key_by_keys uid g h e n =
      has_key-contains uid g ∙ ap (λ t. contains t uid) e ∙ sym (has_key-contains uid h) ∙ n
