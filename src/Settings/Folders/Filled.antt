-- ===== src/Settings/Folders/Filled.antt =====
-- What `setupDirs` leaves of the resources on the disk.
use qt_sss_shttps.Common.{
  All-map, ℕ, zero, suc, ◌<◌, ◌≡◌, refl, ap, ◌∙◌, Bool, true, false, ◌&&◌, Option, some, List, [],
  ◌∷◌, ◌++◌, All, arith, Bool-cases, inl, inr, if◌then◌else◌,
}
use qt_sss_shttps.Text.{Text}
use qt_sss_shttps.Text.Laws.{text_eq_self}
use qt_sss_shttps.Hash.{Hash, lookup, insert, has_key, lookup-insert, lookup_of_key, lookup-has_key}
use qt_sss_shttps.Settings.Folders.{
  File, Disk, FileSystem, with_slash, full_source, make_path, new_file, copy_file, follow,
  copy_each, copy_resources,
}
use qt_sss_shttps.Settings.Folders.Kept.{Extends, IsRanked, copy_file-Extends, make_path-Extends}

-- Everything can be made and copied.
pub record IsFree (z : FileSystem) : Type 0 where
  pub makes : (path : Text) → z.makes path ≡ true
  pub copies : (source target : Text) → z.copies source target ≡ true

module _ (z : FileSystem) where
  unfoldable pub fills_each :
      (Text → Text → Hash File → Bool) → (source target : Text) → List Text → Hash File → Bool
  fills_each deeper source target [] h = true
  fills_each deeper source target (name ∷ names) h =
      (if z.is_dir (source ++ name)
        then deeper (source ++ name) (target ++ name) h
        else has_key (target ++ name) h)
      && fills_each deeper source target names h

  -- Every file below a directory of the resources has a file at its place below the target.
  unfoldable pub is_filled : (fuel : ℕ) → (source target : Text) → Hash File → Bool
  is_filled zero source target h = false
  is_filled (suc fuel) source target h =
      fills_each (is_filled fuel) (full_source source) (with_slash target)
        (z.entry_list (full_source source)) h

  Extends-has_key :
      (d t : Disk) (path : Text)
      → Extends d t
      → has_key path d.files ≡ true
      → has_key path t.files ≡ true
  Extends-has_key d t path k e =
      let (f, g) = lookup_of_key path d.files e in lookup-has_key path t.files f (k path f g)

  -- A test of the files that stays true when files are added.
  abbrev pub IsMonotone : (Hash File → Bool) → Type 0
  IsMonotone p = (d t : Disk) → Extends d t → p d.files ≡ true → p t.files ≡ true

  fills_each-IsMonotone :
      (deeper : Text → Text → Hash File → Bool) (source target : Text) (names : List Text)
      → ((from to : Text) → IsMonotone (deeper from to))
      → IsMonotone (fills_each deeper source target names)
  unfolding fills_each
  fills_each-IsMonotone deeper source target [] m d t k e = refl
  fills_each-IsMonotone deeper source target (name ∷ names) m d t k e = ground (
    arith,
    e,
    m (source ++ name) (target ++ name) d t k,
    Extends-has_key d t (target ++ name) k,
    fills_each-IsMonotone deeper source target names m d t k,
  )

  pub is_filled-IsMonotone :
      (fuel : ℕ) (source target : Text) → IsMonotone (is_filled fuel source target)
  unfolding is_filled
  is_filled-IsMonotone zero source target d t k e = e
  is_filled-IsMonotone (suc fuel) source target d t k e =
      fills_each-IsMonotone (is_filled fuel) _ _ _ (is_filled-IsMonotone fuel) d t k e

  -- The call returns, adds files only, and what it leaves passes the test.
  abbrev pub Fills : Option Disk → Disk → (Hash File → Bool) → Type 0
  Fills o d p = (t : Disk) × ((o ≡ some t) × (Extends d t × (p t.files ≡ true)))

  pub Fills-after :
      (o : Option Disk) (d t : Disk) (p : Hash File → Bool)
      → Extends d t
      → Fills o t p
      → Fills o d p
  Fills-after o d t p k (u, (e, (m, g))) = (u, (e, (λ path f h. m path f (k path f h), g)))

  pub follow-Fills :
      (o : Option Disk) (f : Disk → Option Disk) (d : Disk) (p q : Hash File → Bool)
      → IsMonotone p
      → Fills o d p
      → ((t : Disk) → Fills (f t) t q)
      → Fills (follow z o f) d (λ h. p h && q h)
  unfolding follow
  follow-Fills o f d p q m (t, (e, (k, g))) a =
      let (u, (i, (l, h))) = a t in
      (
        u,
        (
          ap (λ x. follow z x f) e ∙ i,
          ((λ path v j. l path v (k path v j)), ground (arith, m t u l g, h)),
        ),
      )

  insert-lookup : (k : Text) (v : File) (h : Hash File) → lookup k (insert k v h) ≡ some v
  insert-lookup k v h = lookup-insert k k v h ∙ rw (text_eq_self k) refl

  copy_file-has_key :
      (exe : Bool) (source target : Text) (d : Disk)
      → z.copies source target ≡ true
      → has_key target (copy_file z exe source target d).files ≡ true
  unfolding copy_file
  copy_file-has_key exe source target d c = elim (Bool-cases (has_key target d.files)) [
    | inl h ↦ rw (h, copy_file) h
    | inr h ↦
        rw (h, copy_file)
          (rw c (
            lookup-has_key target _ (new_file z exe source target)
              (insert-lookup target _ d.files)))
  ]

  module _ (rank : Text → ℕ) (r : IsRanked z rank) (free : IsFree z) where
    copy_each-Fills :
        (deeper : Text → Text → Disk → Option Disk) (filled : Text → Text → Hash File → Bool)
        (exe : Bool) (source target : Text) (names : List Text)
        → ((from to : Text) → IsMonotone (filled from to))
        → All
            (λ name.
              z.is_dir (source ++ name) ≡ true
              → (to : Text) (d : Disk)
              → Fills (deeper (source ++ name) to d) d (filled (source ++ name) to))
            names
        → (d : Disk)
        → Fills
            (copy_each z deeper exe source target names d)
            d
            (fills_each filled source target names)
    unfolding copy_each fills_each
    copy_each-Fills deeper filled exe source target [] m a d = (d, (refl, (λ path f e. e, refl)))
    copy_each-Fills deeper filled exe source target (name ∷ names) m (h, a) d =
        follow-Fills _ _ d
          (λ t.
            if z.is_dir (source ++ name)
            then filled (source ++ name) (target ++ name) t
            else has_key (target ++ name) t)
          _
          (λ d t k g. ground (
            arith,
            g,
            m (source ++ name) (target ++ name) d t k,
            Extends-has_key d t (target ++ name) k,
          ))
          (elim (Bool-cases (z.is_dir (source ++ name))) [
            | inl e ↦ rw e (h e (target ++ name) d)
            | inr e ↦ rw e (
              _,
              (
                refl,
                (
                  copy_file-Extends z exe (source ++ name) (target ++ name) d,
                  copy_file-has_key exe (source ++ name) (target ++ name) d (free.copies _ _),
                ),
              ),
            )
          ])
          (copy_each-Fills deeper filled exe source target names m a)

    pub copy_resources-Fills :
        (fuel : ℕ) (exe : Bool) (source target : Text) (d : Disk)
        → rank (full_source source) < fuel
        → Fills (copy_resources z fuel exe source target d) d (is_filled fuel source target)
    unfolding copy_resources is_filled
    copy_resources-Fills zero exe source target d l = absurd (omega (arith, l))
    copy_resources-Fills (suc fuel) exe source target d l = rw (free.makes target) (
        Fills-after _ d (make_path z target d) _ (make_path-Extends z target d) (
          copy_each-Fills (copy_resources z fuel exe) (is_filled fuel) exe (full_source source)
            (with_slash target) (z.entry_list (full_source source)) (is_filled-IsMonotone fuel)
            (All-map _ _ (z.entry_list (full_source source))
              (λ name h e to t.
                copy_resources-Fills fuel exe (full_source source ++ name) to t
                  (omega (arith, h e, l)))
              (r.falls (full_source source)))
            (make_path z target d)))
