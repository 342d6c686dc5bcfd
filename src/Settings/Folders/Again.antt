-- ===== src/Settings/Folders/Again.antt =====
-- `setupDirs` where everything can be made and copied, and a second call of it.
use qt_sss_shttps.Common.{
  ℕ, zero, suc, ◌<◌, ◌≡◌, refl, ap, ◌∙◌, Bool, true, false, ◌&&◌, not, Option, some, List, [], ◌∷◌,
  ◌++◌, arith, Bool-cases, inl, inr, if-both,
}
use qt_sss_shttps.Text.{Text, codes}
use qt_sss_shttps.Hash.{Hash, has_key}
use qt_sss_shttps.Settings.Folders.{
  File, Disk, FileSystem, with_slash, full_source, make_path, copy_file, follow, copy_each,
  copy_resources, setup_dirs,
}
use qt_sss_shttps.Settings.Folders.Kept.{Extends, IsRanked, make_path-Extends}
use qt_sss_shttps.Settings.Folders.Filled.{
  IsFree, fills_each, is_filled, is_filled-IsMonotone, Fills, Fills-after, follow-Fills,
  copy_resources-Fills,
}

module _ (z : FileSystem) where
  -- The call returns and leaves the files as they are.
  abbrev pub Same : Option Disk → Disk → Type 0
  Same o d = (t : Disk) × ((o ≡ some t) × (t.files ≡ d.files))

  make_path-files : (path : Text) (d : Disk) → (make_path z path d).files ≡ d.files
  unfolding make_path
  make_path-files path d = if-both (λ (t : Disk). t.files ≡ d.files) (z.makes path) _ _ refl refl

  copy_file-Same :
      (exe : Bool) (source target : Text) (d : Disk)
      → has_key target d.files ≡ true
      → copy_file z exe source target d ≡ d
  unfolding copy_file
  copy_file-Same exe source target d h = rw (h, copy_file) refl

  copy_each-Same :
      (deeper : Text → Text → Disk → Option Disk) (filled : Text → Text → Hash File → Bool)
      (exe : Bool) (source target : Text) (names : List Text)
      → ((from to : Text) (d : Disk) → filled from to d.files ≡ true → Same (deeper from to d) d)
      → (d : Disk) → fills_each z filled source target names d.files ≡ true
      → Same (copy_each z deeper exe source target names d) d
  unfolding copy_each fills_each follow
  copy_each-Same deeper filled exe source target [] a d e = (d, (refl, refl))
  copy_each-Same deeper filled exe source target (name ∷ names) a d e =
      elim (Bool-cases (z.is_dir (source ++ name))) [
        | inl g ↦
            let (t, (i, s)) = a (source ++ name) (target ++ name) d (ground (arith, e, g)) in
            let (u, (j, l)) =
              copy_each-Same deeper filled exe source target names a t
                (ap (λ h. fills_each z filled source target names h) s ∙ ground (arith, e)) in
            (
              u,
              (
                rw g (ap (λ x. follow z x (copy_each z deeper exe source target names)) i ∙ j),
                l ∙ s,
              ),
            )
        | inr g ↦
            let (u, (j, l)) =
              copy_each-Same deeper filled exe source target names a d (ground (arith, e)) in
            (
              u,
              (
                rw g (
                    rw
                      (copy_file-Same exe (source ++ name) (target ++ name) d
                        (ground (arith, e, g)))
                      j),
                l,
              ),
            )
      ]

  copy_resources-Same :
      (fuel : ℕ) (exe : Bool) (source target : Text) (d : Disk)
      → is_filled z fuel source target d.files ≡ true
      → Same (copy_resources z fuel exe source target d) d
  unfolding copy_resources is_filled
  copy_resources-Same zero exe source target d e = absurd (cc e)
  copy_resources-Same (suc fuel) exe source target d e =
      if-both (λ o. Same o d) (not (z.makes target)) _ _ (_, (refl, refl))
        (let (u, (j, l)) =
            copy_each-Same (copy_resources z fuel exe) (is_filled z fuel) exe (full_source source)
              (with_slash target) (z.entry_list (full_source source)) (copy_resources-Same fuel exe)
              (make_path z target d)
              (ap
                  (λ h.
                    fills_each z (is_filled z fuel) (full_source source) (with_slash target)
                      (z.entry_list (full_source source)) h)
                  (make_path-files target d)
                ∙ e) in
          (u, (j, l ∙ make_path-files target d)))

  follow-Same :
      (o : Option Disk) (f : Disk → Option Disk) (d : Disk)
      → Same o d
      → ((t : Disk) → t.files ≡ d.files → Same (f t) t)
      → Same (follow z o f) d
  unfolding follow
  follow-Same o f d (t, (e, k)) a =
      let (u, (g, l)) = a t k in (u, (ap (λ x. follow z x f) e ∙ g, l ∙ k))

  -- The templates of the modules and the programs are all there.
  unfoldable pub is_set_up : (fuel : ℕ) → (base templates : Text) → Hash File → Bool
  is_set_up fuel base templates h =
      is_filled z fuel (codes ":/moduleTemplates/") templates h
      && is_filled z fuel (codes ":/bin/") (base ++ codes "bin/") h

  setup_dirs-Same :
      (fuel : ℕ) (base modules templates : Text) (d : Disk)
      → is_set_up fuel base templates d.files ≡ true
      → Same (setup_dirs z fuel base modules templates d) d
  unfolding setup_dirs is_set_up
  setup_dirs-Same fuel base modules templates d e =
      let made = make_path z templates (make_path z modules (make_path z base d)) in
      let same =
        make_path-files templates (make_path z modules (make_path z base d))
        ∙ (make_path-files modules (make_path z base d) ∙ make_path-files base d) in
      if-both (λ o. Same o d) (not (z.makes base)) _ _ (_, (refl, refl))
        (let (u, (j, l)) =
            follow-Same _ (copy_resources z fuel true (codes ":/bin/") (base ++ codes "bin/")) made
              (copy_resources-Same fuel false (codes ":/moduleTemplates/") templates made (
                ap (λ h. is_filled z fuel (codes ":/moduleTemplates/") templates h) same
                ∙ ground (arith, e)))
              (λ t k. copy_resources-Same fuel true (codes ":/bin/") (base ++ codes "bin/") t (
                ap (λ h. is_filled z fuel (codes ":/bin/") (base ++ codes "bin/") h) (k ∙ same)
                ∙ ground (arith, e))) in
          (u, (j, l ∙ same)))

  -- What the first call leaves, and that the second one changes no file.
  pub record IsInstalled (fuel : ℕ) (base modules templates : Text) (d : Disk) : Type 0 where
    pub after : Disk
    pub returns : setup_dirs z fuel base modules templates d ≡ some after
    pub kept : Extends d after
    pub complete : is_set_up fuel base templates after.files ≡ true
    pub again : Same (setup_dirs z fuel base modules templates after) after

  setup_dirs-Fills :
      (rank : Text → ℕ) (r : IsRanked z rank) (free : IsFree z) (fuel : ℕ)
      (base modules templates : Text) (d : Disk)
      → rank (full_source (codes ":/moduleTemplates/")) < fuel
      → rank (full_source (codes ":/bin/")) < fuel
      → Fills z (setup_dirs z fuel base modules templates d) d (is_set_up fuel base templates)
  unfolding setup_dirs is_set_up
  setup_dirs-Fills rank r free fuel base modules templates d l m =
      let one = make_path z base d in
      let two = make_path z modules one in
      let made = make_path z templates two in
      rw (free.makes base) (
        Fills-after z _ d made _
          (λ path f e.
            make_path-Extends z templates two path f
              (make_path-Extends z modules one path f (make_path-Extends z base d path f e)))
          (follow-Fills z _ _ made _ _
            (is_filled-IsMonotone z fuel (codes ":/moduleTemplates/") templates)
            (copy_resources-Fills z rank r free fuel false (codes ":/moduleTemplates/") templates
              made l)
            (λ t.
              copy_resources-Fills z rank r free fuel true (codes ":/bin/") (base ++ codes "bin/") t
                m)))

  -- Where the resources are ranked, the fuel is more than the ranks of their two directories, and
  -- everything can be made and copied: setupDirs returns, every file that was there is as it was,
  -- every template and every program of the resources has a file at its place, and a second call
  -- returns and changes no file.
  pub setup_dirs-IsInstalled :
      (rank : Text → ℕ)
      → IsRanked z rank
      → IsFree z
      → (fuel : ℕ) (base modules templates : Text) (d : Disk)
      → rank (full_source (codes ":/moduleTemplates/")) < fuel
      → rank (full_source (codes ":/bin/")) < fuel
      → IsInstalled fuel base modules templates d
  setup_dirs-IsInstalled rank r free fuel base modules templates d l m =
      let (t, (e, (k, f))) = setup_dirs-Fills rank r free fuel base modules templates d l m in
      record {
        after = t;
        returns = e;
        kept = k;
        complete = f;
        again = setup_dirs-Same fuel base modules templates t f;
      }
