-- ===== src/Application.antt =====
-- AppController.cpp: `run` as a whole, with `initSettings` and `writePID`.
pub mod Written
pub mod Run
pub mod Modules
use qt_sss_shttps.Common.{ℕ, Bool, true, false, not, Option, none, some, if◌then◌else◌, List, ◌++◌}
use qt_sss_shttps.Text.{Text, codes}
use qt_sss_shttps.Text.Decimal.{decimal}
use qt_sss_shttps.Hash.{Hash, lookup, insert}
use qt_sss_shttps.Settings.{
  Variant, variant_text, Surroundings, CommandLine, AppSettings, pid_path_file, get, path_modules,
  path_module_templates, init_overrides, init_paths, init_settings,
}
use qt_sss_shttps.Settings.Folders.{Permissions, by_default, File, Disk, FileSystem, setup_dirs}
use qt_sss_shttps.Controller.{
  ModuleClass, Controller, Outcome, leaves, null_pointer, unfinished, run,
}

-- What `run` reads of the machine: the settings' surroundings, the file classes, the command line,
-- whether a file can be opened for writing, the text of a settings file that holds those values, and
-- the number of the process.
pub record Machine : Type 0 where
  pub surroundings : Surroundings
  pub file_system : FileSystem
  pub command_line : CommandLine
  pub opens : Text → Bool
  pub print_settings : Hash Variant → Text
  pub process_id : ℕ

-- `first_run` is the static variable of `run`. `disk` is without the configurations in modules.d
-- once they are read: what the file of one holds is `stored` of its `Conf`.
pub record Application (M : Type 0) : Type 0 where
  pub first_run : Bool
  pub settings : AppSettings
  pub disk : Disk
  pub controller : Controller M

-- A call that leaves the application, goes through a null pointer, or runs out of fuel.
pub data RunResult (M : Type 0) : Type 0 where
  goes_on : Application M → RunResult M
  fails runs_out : RunResult M

unfoldable pub file_permissions : Option File → Permissions
file_permissions none = by_default
file_permissions (some f) = f.permissions

-- The file is emptied, and then it holds that text.
unfoldable pub write_file : (path content : Text) → Disk → Disk
write_file path content d = record d {
  files =
      insert path
        (record { content = content; permissions = file_permissions (lookup path d.files) })
        d.files;
}

-- `writePID`; `none` is a call on the null `pSettings`.
unfoldable pub write_pid : Machine → AppSettings → Disk → Option Disk
write_pid x s d = elim (get x.surroundings pid_path_file s) [
  | none ↦ none
  | some v ↦
      some (
        if x.opens (variant_text v)
        then write_file (variant_text v) (decimal x.process_id) d
        else d)
]

-- The directories that `init` of the settings makes, between its `initPaths` and its `readModules`.
unfoldable pub init_dirs : (fuel : ℕ) → Machine → AppSettings → Disk → Option Disk
init_dirs fuel x s d =
    let t = init_paths x.surroundings (init_overrides x.surroundings x.command_line s) in
    if s.init_done
    then some d
    else setup_dirs x.file_system fuel t.path_data_base (path_modules t) (path_module_templates t) d

unfoldable pub settings_path : AppSettings → Text
settings_path s = s.path_data_base ++ codes "Settings.ini"

-- `sync` of the settings file that is open.
unfoldable pub sync_file : Machine → AppSettings → Disk → Disk
sync_file x s d = elim s.stored [
  | none ↦ d
  | some h ↦
      if x.opens (settings_path s) then write_file (settings_path s) (x.print_settings h) d else d
]

-- The end of `init` of the settings, which were not initialised before.
unfoldable pub sync_settings :
    Machine → (initialised : Bool) → AppSettings → Option Disk → Option Disk
sync_settings x initialised s none = none
sync_settings x initialised s (some d) = some (if initialised then d else sync_file x s d)

module _ {M : Type 0} (k : ModuleClass M) where
  unfoldable pub finish_run : AppSettings → Disk → Outcome M → RunResult M
  finish_run s d (leaves c) =
      goes_on (record { first_run = false; settings = s; disk = d; controller = c })
  finish_run s d null_pointer = fails
  finish_run s d unfinished = runs_out

  unfoldable pub run_modules :
      (x : Machine) → AppSettings → Controller M → Option Disk → RunResult M
  run_modules x s c none = fails
  run_modules x s c (some d) = finish_run s d (run k x.surroundings.storage s.module_confs c)

  -- `writePID` and what follows it.
  unfoldable pub run_on : (x : Machine) → AppSettings → Controller M → Option Disk → RunResult M
  run_on x s c none = runs_out
  run_on x s c (some d) = run_modules x s c (write_pid x s d)

  unfoldable pub run_application : (fuel : ℕ) → Machine → Application M → RunResult M
  run_application fuel x a =
      if not a.first_run
      then goes_on a
      else (let s = init_settings x.surroundings x.command_line a.settings in
          run_on x s a.controller
            (sync_settings x a.settings.init_done s (init_dirs fuel x a.settings a.disk)))
