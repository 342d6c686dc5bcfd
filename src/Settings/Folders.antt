-- ===== src/Settings/Folders.antt =====
-- `copyResources` and `setupDirs` of AppSettings.cpp: the directories of the application, and the
-- files that it copies into them from its resources.
pub mod Kept
pub mod Filled
pub mod Again
use qt_sss_shttps.Common.{
  ℕ, zero, suc, ◌+◌, Bool, true, false, not, Option, none, some, if◌then◌else◌, List, [], ◌∷◌, ◌++◌,
}
use qt_sss_shttps.Text.{Text, codes, starts_with, ends_with}
use qt_sss_shttps.Hash.{Hash, insert, has_key}

-- What a file may be used for: as the resource that it was copied from, as one of the two calls of
-- `setPermissions` says, or as the system has it for a file that is opened for writing.
pub data Permissions : Type 0 where
  as_source plain executable by_default : Permissions

pub record File : Type 0 where
  pub content : Text
  pub permissions : Permissions

-- `errors` counts the signals `dataDirError`.
pub record Disk : Type 0 where
  pub dirs : List Text
  pub files : Hash File
  pub errors : ℕ

-- The framework's file classes on the resources and on the disk: the names in a directory, whether
-- a path is a directory, the bytes of a resource, and whether `mkpath`, `copy` to a file that is
-- not there, and `setPermissions` succeed.
pub record FileSystem : Type 0 where
  pub entry_list : Text → List Text
  pub is_dir : Text → Bool
  pub resource : Text → Text
  pub makes : Text → Bool
  pub copies : (source target : Text) → Bool
  pub permits : Text → Bool

unfoldable pub with_slash : Text → Text
with_slash t = if ends_with t b'/' then t else t ++ codes "/"

-- The path of a resource directory as the loop uses it.
unfoldable pub full_source : Text → Text
full_source source =
    let t = with_slash source in
    if starts_with t (codes ":/")
    then t
    else if starts_with t (codes "/")
    then codes ":" ++ t
    else codes ":/" ++ t

module _ (z : FileSystem) where
  -- `mkpath`, with its result.
  unfoldable pub make_path : Text → Disk → Disk
  make_path path d = if z.makes path then record d { dirs = d.dirs ++ (path ∷ []) } else d

  unfoldable pub new_file : (exe : Bool) → (source target : Text) → File
  new_file exe source target = record {
    content = z.resource source;
    permissions = if not (z.permits target) then as_source else if exe then executable else plain;
  }

  -- The body of the loop for a resource that is a file.
  unfoldable pub copy_file : (exe : Bool) → (source target : Text) → Disk → Disk
  copy_file exe source target d =
      if has_key target d.files
      then d
      else if z.copies source target
      then record d { files = insert target (new_file exe source target) d.files }
      else d

  unfoldable pub follow : Option Disk → (Disk → Option Disk) → Option Disk
  follow none f = none
  follow (some d) f = f d

  -- The loop, for what the method does with a directory.
  unfoldable pub copy_each :
      (Text → Text → Disk → Option Disk)
      → (exe : Bool) → (source target : Text) → List Text
      → Disk
      → Option Disk
  copy_each deeper exe source target [] d = some d
  copy_each deeper exe source target (name ∷ names) d =
      follow
        (if z.is_dir (source ++ name)
          then deeper (source ++ name) (target ++ name) d
          else some (copy_file exe (source ++ name) (target ++ name) d))
        (copy_each deeper exe source target names)

  -- `copyResources`, on fuel for the depth of the directories; `none` means that it ran out.
  unfoldable pub copy_resources :
      (fuel : ℕ) → (exe : Bool) → (source target : Text) → Disk → Option Disk
  copy_resources zero exe source target d = none
  copy_resources (suc fuel) exe source target d =
      if not (z.makes target)
      then some (record d { errors = d.errors + 1 })
      else copy_each (copy_resources fuel exe) exe (full_source source) (with_slash target)
          (z.entry_list (full_source source)) (make_path target d)

  -- `setupDirs`, where the paths of the modules and of their templates are given.
  unfoldable pub setup_dirs : (fuel : ℕ) → (base modules templates : Text) → Disk → Option Disk
  setup_dirs fuel base modules templates d =
      if not (z.makes base)
      then some (record d { errors = d.errors + 1 })
      else follow
          (copy_resources fuel false (codes ":/moduleTemplates/") templates
            (make_path templates (make_path modules (make_path base d))))
          (copy_resources fuel true (codes ":/bin/") (base ++ codes "bin/"))
