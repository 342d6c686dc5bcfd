-- ===== src/Application/Run.antt =====
-- What `run` of the application leaves.
use qt_sss_shttps.Common.{ℕ, ◌≡◌, ◌≢◌, ◌++◌, true, some, if◌then◌else◌, All}
use qt_sss_shttps.Text.{Text}
use qt_sss_shttps.Hash.{Hash, lookup}
use qt_sss_shttps.Conf.{Conf}
use qt_sss_shttps.Settings.{
  Variant, variant_text, AppSettings, new_settings, pid_path_file, get, init_settings, path_modules,
}
use qt_sss_shttps.Settings.Folders.{File, Disk}
use qt_sss_shttps.Controller.{ModuleClass, Controller, load_modules}
use qt_sss_shttps.Controller.Loading.{IsWellFormed}
use qt_sss_shttps.Application.{
  Machine, Application, RunResult, goes_on, run_application, settings_path,
}
use qt_sss_shttps.Application.Written.{pid_in, content_in, is_kept_apart}

-- The settings file is open.
abbrev HasStore : AppSettings → Type 0
HasStore s = (h : Hash Variant) × (s.stored ≡ some h)

-- What the first run leaves: all loaded modules are up, the settings name a file for the number of
-- the process, which holds it if it could be opened, the settings file holds the settings, and
-- every other file that is no configuration is as it was.
pub record HasStarted {M : Type 0} (k : ModuleClass M) (P : M → Type 0) (x : Machine)
    (a : Application M) (r : RunResult M) : Type 0 where
  pub after : Application M
  pub pid : Variant
  pub settings_held : Hash Variant
  pub returns : r ≡ goes_on after
  pub again : (fuel : ℕ) → run_application k fuel x after ≡ goes_on after
  pub initialized : after.settings ≡ init_settings x.surroundings x.command_line a.settings
  pub same_uids :
      after.controller.uids
      ≡ (load_modules k x.surroundings.storage after.settings.module_confs a.controller).uids
  pub well_formed : IsWellFormed k after.controller
  pub all_up : All (λ e. P e.1) after.controller.modules
  pub named : get x.surroundings pid_path_file after.settings ≡ some pid
  pub recorded :
      (if x.opens (variant_text pid)
        then pid_in (lookup (variant_text pid) after.disk.files)
        else some x.process_id)
      ≡ some x.process_id
  pub holds : after.settings.stored ≡ some settings_held
  pub synced :
      (if is_kept_apart x after.settings (variant_text pid)
        then content_in (lookup (settings_path after.settings) after.disk.files)
        else some (x.print_settings settings_held))
      ≡ some (x.print_settings settings_held)
  pub kept :
      (path : Text) (f : File)
      → variant_text pid ≢ path
      → settings_path after.settings ≢ path
      → ((name : Text) → path_modules after.settings ++ name ≢ path)
      → lookup path a.disk.files ≡ some f
      → lookup path after.disk.files ≡ some f

-- The application before its first run.
abbrev pub new_application : {M : Type 0} → Disk → Controller M → Application M
new_application d c = record { first_run = true; settings = new_settings; disk = d; controller = c }
