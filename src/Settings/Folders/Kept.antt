-- ===== src/Settings/Folders/Kept.antt =====
-- What `setupDirs` does to the files that are there already.
use qt_sss_shttps.Common.{
  All-map, ℕ, zero, suc, ◌<◌, ◌≡◌, refl, ap, ◌∙◌, Bool, true, false, not, Option, some, List, [],
  ◌∷◌, ◌++◌, All, arith, Bool-cases, inl, inr, if-both,
}
use qt_sss_shttps.Text.{Text, codes}
use qt_sss_shttps.Text.Laws.{text_eq_iff}
use qt_sss_shttps.Hash.{Hash, lookup, insert, has_key, lookup-insert, lookup-has_key}
use qt_sss_shttps.Settings.Folders.{
  File, Disk, FileSystem, with_slash, full_source, make_path, new_file, copy_file, follow,
  copy_each, copy_resources, setup_dirs,
}

-- Every file of the first disk is on the second one, as it was.
abbrev pub Extends : Disk → Disk → Type 0
Extends d t = (path : Text) (f : File) → lookup path d.files ≡ some f → lookup path t.files ≡ some f

-- A rank of the directories that falls from a directory to those in it.
pub record IsRanked (z : FileSystem) (rank : Text → ℕ) : Type 0 where
  pub falls :
      (source : Text)
      → All
          (λ name.
            z.is_dir (source ++ name) ≡ true → rank (full_source (source ++ name)) < rank source)
          (z.entry_list source)

-- The call returns, and the disk it leaves extends that which it finds.
abbrev pub Adds : Option Disk → Disk → Type 0
Adds o d = (t : Disk) × ((o ≡ some t) × Extends d t)

lookup-insert_new :
    {V : Type 0} (k path : Text) (v w : V) (h : Hash V)
    → has_key k h ≡ false
    → lookup path h ≡ some w
    → lookup path (insert k v h) ≡ some w
lookup-insert_new k path v w h n e =
    lookup-insert k path v h ∙ ground (arith, e, n, text_eq_iff k path, lookup-has_key path h w)

module _ (z : FileSystem) where
  pub copy_file-Extends :
      (exe : Bool) (source target : Text) (d : Disk) → Extends d (copy_file z exe source target d)
  unfolding copy_file
  copy_file-Extends exe source target d path f e = elim (Bool-cases (has_key target d.files)) [
    | inl h ↦ rw (h, copy_file) e
    | inr h ↦
        rw (h, copy_file)
          (if-both (λ (t : Disk). lookup path t.files ≡ some f) (z.copies source target) _ _
            (lookup-insert_new target path (new_file z exe source target) f d.files h e) e)
  ]

  pub make_path-Extends : (path : Text) (d : Disk) → Extends d (make_path z path d)
  unfolding make_path
  make_path-Extends path d other f e =
      if-both (λ (t : Disk). lookup other t.files ≡ some f) (z.makes path) _ _ e e

  Adds-after : (o : Option Disk) (d t : Disk) → Extends d t → Adds o t → Adds o d
  Adds-after o d t k (u, (e, m)) = (u, (e, λ path f h. m path f (k path f h)))

  -- A further call after one that returned.
  follow-Adds :
      (o : Option Disk) (f : Disk → Option Disk) (d : Disk)
      → Adds o d
      → ((t : Disk) → Adds (f t) t)
      → Adds (follow z o f) d
  unfolding follow
  follow-Adds o f d (t, (e, k)) a =
      let (u, (g, m)) = a t in
      (u, (ap (λ x. follow z x f) e ∙ g, λ path v h. m path v (k path v h)))

  pub copy_each-Adds :
      (deeper : Text → Text → Disk → Option Disk) (exe : Bool) (source target : Text)
      (names : List Text)
      → All
          (λ name.
            z.is_dir (source ++ name) ≡ true
            → (to : Text) (d : Disk) → Adds (deeper (source ++ name) to d) d)
          names
      → (d : Disk) → Adds (copy_each z deeper exe source target names d) d
  unfolding copy_each
  copy_each-Adds deeper exe source target [] a d = (d, (refl, λ path f e. e))
  copy_each-Adds deeper exe source target (name ∷ names) (h, a) d =
      follow-Adds _ _ d
        (elim (Bool-cases (z.is_dir (source ++ name))) [
          | inl e ↦ rw e (h e (target ++ name) d)
          | inr e ↦ rw e (_, (refl, copy_file-Extends exe (source ++ name) (target ++ name) d))
        ])
        (copy_each-Adds deeper exe source target names a)

  module _ (rank : Text → ℕ) (r : IsRanked z rank) where
    pub copy_resources-Adds :
        (fuel : ℕ) (exe : Bool) (source target : Text) (d : Disk)
        → rank (full_source source) < fuel
        → Adds (copy_resources z fuel exe source target d) d
    unfolding copy_resources
    copy_resources-Adds zero exe source target d l = absurd (omega (arith, l))
    copy_resources-Adds (suc fuel) exe source target d l =
        if-both (λ o. Adds o d) (not (z.makes target)) _ _ (_, (refl, λ path f e. e))
          (Adds-after _ d (make_path z target d) (make_path-Extends target d) (
            copy_each-Adds (copy_resources z fuel exe) exe (full_source source) (with_slash target)
              (z.entry_list (full_source source))
              (All-map _ _ (z.entry_list (full_source source))
                (λ name h e to t.
                  copy_resources-Adds fuel exe (full_source source ++ name) to t
                    (omega (arith, h e, l)))
                (r.falls (full_source source)))
              (make_path z target d)))

    -- Where the resources are ranked, and the fuel is more than the ranks of the two directories
    -- of resources: setupDirs returns, and every file that was on the disk is there as it was,
    -- with its content and its permissions, whatever can not be made or copied.
    pub setup_dirs-Adds :
        (fuel : ℕ) (base modules templates : Text) (d : Disk)
        → rank (full_source (codes ":/moduleTemplates/")) < fuel
        → rank (full_source (codes ":/bin/")) < fuel
        → Adds (setup_dirs z fuel base modules templates d) d
    unfolding setup_dirs
    setup_dirs-Adds fuel base modules templates d l m =
        if-both (λ o. Adds o d) (not (z.makes base)) _ _ (_, (refl, λ path f e. e))
          (Adds-after _ d (make_path z templates (make_path z modules (make_path z base d)))
            (λ path f e.
              make_path-Extends templates (make_path z modules (make_path z base d)) path f (
                make_path-Extends modules (make_path z base d) path f
                  (make_path-Extends base d path f e)))
            (follow-Adds _ _ (make_path z templates (make_path z modules (make_path z base d)))
              (copy_resources-Adds fuel false (codes ":/moduleTemplates/") templates
                (make_path z templates (make_path z modules (make_path z base d))) l)
              (λ t. copy_resources-Adds fuel true (codes ":/bin/") (base ++ codes "bin/") t m)))
