-- ===== src/Controller/Names.antt =====
-- The names that `loadModules` gives: a name that is taken is made longer until it is free.
use qt_sss_shttps.Common.{
  ℕ, zero, suc, ◌+◌, ◌≤◌, ◌≡◌, ap, ◌∙◌, true, false, if◌then◌else◌, [], ◌∷◌, ◌++◌, leb, length,
  length-append, arith, Bool-cases, inl, inr,
}
use qt_sss_shttps.Text.{Text, codes, text_eq}
use qt_sss_shttps.Text.Laws.{text_eq_iff}
use qt_sss_shttps.Hash.{Hash, has_key}
use qt_sss_shttps.Controller.{unique_uid}

length_of_eq : (s t : Text) → text_eq s t ≡ true → length s ≡ length t
length_of_eq s t e = ap length ((text_eq_iff s t).0 e)

length-dotted : (uid : Text) → length (uid ++ codes ".") ≡ suc (length uid)
length-dotted uid = length-append uid (codes ".") ∙ omega arith

module _ {M : Type 0} where
  -- How many keys have at least n characters.
  count_long : ℕ → Hash M → ℕ
  count_long n [] = 0
  count_long n ((uid, m) ∷ h) = (if leb n (length uid) then 1 else 0) + count_long n h

  count_long-length : (n : ℕ) (h : Hash M) → count_long n h ≤ length h
  unfolding count_long
  count_long-length n [] = omega arith
  count_long-length n ((uid, m) ∷ h) = ground (arith, count_long-length n h)

  count_long-suc : (n : ℕ) (h : Hash M) → count_long (suc n) h ≤ count_long n h
  unfolding count_long
  count_long-suc n [] = omega arith
  count_long-suc n ((uid, m) ∷ h) = ground (arith, count_long-suc n h)

  count_long-loaded :
      (uid : Text) (h : Hash M)
      → has_key uid h ≡ true
      → count_long (suc (length uid)) h + 1 ≤ count_long (length uid) h
  unfolding count_long has_key
  count_long-loaded uid [] e = absurd (cc e)
  count_long-loaded uid ((other, m) ∷ h) e = elim (Bool-cases (text_eq other uid)) [
    | inl f ↦ ground (arith, length_of_eq other uid f, count_long-suc (length uid) h)
    | inr f ↦ ground (arith, count_long-loaded uid h (rw f at e))
  ]

  unique_uid-free :
      (fuel : ℕ) (h : Hash M) (uid : Text)
      → count_long (length uid) h ≤ fuel
      → has_key (unique_uid fuel h uid) h ≡ false
  unfolding unique_uid
  unique_uid-free zero h uid l = elim (Bool-cases (has_key uid h)) [
    | inl e ↦ absurd (omega (arith, count_long-loaded uid h e, l))
    | inr e ↦ e
  ]
  unique_uid-free (suc fuel) h uid l = elim (Bool-cases (has_key uid h)) [
    | inl e ↦
        rw (e, unique_uid)
          (unique_uid-free fuel h (uid ++ codes ".")
            (rw (length-dotted uid) (omega (arith, count_long-loaded uid h e, l))))
    | inr e ↦ rw (e, unique_uid) e
  ]

  -- The loop that makes a name unique ends with a free name within as many rounds as there are
  -- modules.
  pub unique_uid-has_key :
      (h : Hash M) (uid : Text) → has_key (unique_uid (length h) h uid) h ≡ false
  unique_uid-has_key h uid = unique_uid-free (length h) h uid (count_long-length (length uid) h)
