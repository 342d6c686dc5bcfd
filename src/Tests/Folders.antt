-- ===== src/Tests/Folders.antt =====
-- The directories and resources of the application on concrete inputs.
use qt_sss_shttps.Common.{
  ℕ, ◌<◌, ◌≡◌, refl, true, if◌then◌else◌, [], ◌∷◌, ◌++◌, All, Bool-cases, inl, inr, subst, sym,
  arith,
}
use qt_sss_shttps.Text.{Text, codes, text_eq, starts_with, ends_with}
use qt_sss_shttps.Text.Laws.{text_eq_iff}
use qt_sss_shttps.Settings.Folders.{plain, Disk, FileSystem, with_slash, full_source, setup_dirs}
use qt_sss_shttps.Settings.Folders.Kept.{IsRanked, Adds, setup_dirs-Adds}
use qt_sss_shttps.Settings.Folders.Filled.{IsFree}
use qt_sss_shttps.Settings.Folders.Again.{IsInstalled, setup_dirs-IsInstalled}

-- One template, and one program in a directory below that of the programs.
abbrev pub packed : FileSystem
packed = record {
  entry_list = λ path.
      if text_eq path (codes ":/moduleTemplates/")
      then codes "base.json" ∷ []
      else if text_eq path (codes ":/bin/")
      then codes "tools" ∷ []
      else if text_eq path (codes ":/bin/tools/")
      then codes "run.sh" ∷ []
      else [];
  is_dir = λ path. text_eq path (codes ":/bin/tools");
  resource = λ path. path;
  makes = λ path. true;
  copies = λ source target. true;
  permits = λ path. true;
}

abbrev pub packed_rank : Text → ℕ
packed_rank path = if text_eq path (codes ":/bin/") then 1 else 0

-- What has to hold of the entries of a directory of the resources.
abbrev Falls : Text → Type 0
Falls source =
    All
      (λ name.
        packed.is_dir (source ++ name) ≡ true
        → packed_rank (full_source (source ++ name)) < packed_rank source)
      (packed.entry_list source)

packed-Falls : (source : Text) → Falls source
unfolding text_eq full_source with_slash ends_with starts_with
packed-Falls source = elim (Bool-cases (text_eq source (codes ":/bin/"))) [
  | inl e ↦ subst Falls (sym ((text_eq_iff source (codes ":/bin/")).0 e)) ((λ h. omega arith), tt)
  | inr e ↦ elim (Bool-cases (text_eq source (codes ":/bin/tools/"))) [
    | inl f ↦
        subst Falls (sym ((text_eq_iff source (codes ":/bin/tools/")).0 f))
          ((λ h. absurd (cc h)), tt)
    | inr f ↦ elim (Bool-cases (text_eq source (codes ":/moduleTemplates/"))) [
      | inl g ↦
          subst Falls (sym ((text_eq_iff source (codes ":/moduleTemplates/")).0 g))
            ((λ h. absurd (cc h)), tt)
      | inr g ↦ rw (e, f, g) tt
    ]
  ]
]

pub packed-IsRanked : IsRanked packed packed_rank
packed-IsRanked = record { falls = packed-Falls }

packed-IsFree : IsFree packed
packed-IsFree = record { makes = λ path. refl; copies = λ source target. refl }

abbrev pub old_disk : Disk
old_disk = record {
  dirs = [];
  files =
      (codes "/d/bin/tools/run.sh", record { content = codes "mine"; permissions = plain }) ∷ [];
  errors = 0;
}

setup_dirs-Adds_example :
    Adds
      (setup_dirs packed 3
        (codes "/d/")
        (codes "/d/modules.d/")
        (codes "/d/moduleTemplates/")
        old_disk)
      old_disk
unfolding full_source with_slash ends_with starts_with text_eq
setup_dirs-Adds_example =
    setup_dirs-Adds packed packed_rank packed-IsRanked 3 (codes "/d/") (codes "/d/modules.d/")
      (codes "/d/moduleTemplates/") old_disk (omega arith) (omega arith)

setup_dirs-IsInstalled_example :
    IsInstalled packed 3
      (codes "/d/")
      (codes "/d/modules.d/")
      (codes "/d/moduleTemplates/")
      old_disk
unfolding full_source with_slash ends_with starts_with text_eq
setup_dirs-IsInstalled_example =
    setup_dirs-IsInstalled packed packed_rank packed-IsRanked packed-IsFree 3 (codes "/d/")
      (codes "/d/modules.d/") (codes "/d/moduleTemplates/") old_disk (omega arith) (omega arith)
