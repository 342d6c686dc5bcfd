-- ===== src/Settings.antt =====
-- AppSettings.h and AppSettings.cpp: the settings of the application, with their overrides from the
-- command line, and the list of the modules' configurations. The build without a GUI is modelled.
pub mod Overridden
pub mod Folders
use qt_sss_shttps.Common.{
  Bool, true, false, Option, none, some, not, if◌then◌else◌, List, [], ◌∷◌, ◌++◌,
}
use qt_sss_shttps.Text.{Text, codes, text_eq, is_empty, ends_with}
use qt_sss_shttps.Hash.{Hash, lookup, insert, remove, has_key}
use qt_sss_shttps.Json.{Json}
use qt_sss_shttps.Conf.{Storage, Conf, open_conf}

-- A `QVariant` as the settings hold it.
pub data Variant : Type 0 where
  invalid : Variant
  flag_value : Bool → Variant
  text_value : Text → Variant

-- `toString`.
unfoldable pub variant_text : Variant → Text
variant_text invalid = []
variant_text (flag_value true) = codes "true"
variant_text (flag_value false) = codes "false"
variant_text (text_value t) = t

-- What the settings read of the framework and of the machine: `QString::trimmed`, the name of the
-- application, the first location for documents, the values that a settings file holds, the names
-- of the configurations in a directory, what `QJsonDocument::fromJson` makes of a file, and how
-- the files of configurations are written.
pub record Surroundings : Type 0 where
  pub trim : Text → Text
  pub application_name : Text
  pub documents : Text
  pub settings_file : Text → Hash Variant
  pub configurations : Text → List Text
  pub read_json : Text → Option Json
  pub storage : Storage

-- The command line, parsed: the value of base-path, and whether verbose is set.
pub record CommandLine : Type 0 where
  pub path_given : Text
  pub verbose : Bool

-- `stored` is what `pSettings` holds, `none` while it is null; `overrides` is `oJo`.
pub record AppSettings : Type 0 where
  pub path_data_base : Text
  pub stored : Option (Hash Variant)
  pub module_confs : List Conf
  pub overrides : Hash Variant
  pub init_done : Bool

-- The constructor.
abbrev pub new_settings : AppSettings
new_settings = record {
  path_data_base = [];
  stored = none;
  module_confs = [];
  overrides = [];
  init_done = false;
}

abbrev pub https_path_cert : Text
https_path_cert = codes "sHTTPSpathCert"

abbrev pub https_path_key : Text
https_path_key = codes "sHTTPSpathKey"

abbrev pub path_base_key : Text
path_base_key = codes "sPathBase"

abbrev pub pid_path_file : Text
pid_path_file = codes "sPathFilePID"

abbrev pub verbose_key : Text
verbose_key = codes "bVerbose"

-- `pSettings->value(sKey, ..)`.
unfoldable pub stored_value : Text → (default_value : Variant) → Hash Variant → Variant
stored_value key default_value h = elim (lookup key h) [ none ↦ default_value | some v ↦ v ]

-- The path that is stored, or else the file of that name in the base path.
unfoldable pub path_or_default : Surroundings → AppSettings → Text → Text → Hash Variant → Variant
path_or_default z s key file_name h =
    let path = z.trim (variant_text (stored_value key (text_value []) h)) in
    if is_empty path then text_value (s.path_data_base ++ file_name) else text_value path

-- The comparisons of `get`; `none` is a call on the null `pSettings`.
unfoldable pub get_stored :
    Surroundings → AppSettings → Text → Option (Hash Variant) → Option Variant
get_stored z s key o =
    if text_eq https_path_cert key
    then elim o [ none ↦ none | some h ↦ some (path_or_default z s key (codes "sslCert.pem") h) ]
    else if text_eq https_path_key key
    then elim o [ none ↦ none | some h ↦ some (path_or_default z s key (codes "sslKey") h) ]
    else if text_eq path_base_key key
    then some (text_value s.path_data_base)
    else if text_eq pid_path_file key
    then elim o [
      | none ↦ none
      | some h ↦ some (path_or_default z s key (codes "QtSssSmultimedia.pid") h)
    ]
    else if text_eq verbose_key key
    then elim o [ none ↦ none | some h ↦ some (stored_value key (flag_value false) h) ]
    else elim o [ none ↦ none | some h ↦ some (stored_value key invalid h) ]

unfoldable pub get : Surroundings → Text → AppSettings → Option Variant
get z key s =
    if s.init_done
    then elim (lookup key s.overrides) [ none ↦ get_stored z s key s.stored | some v ↦ some v ]
    else get_stored z s key s.stored

unfoldable pub path_bin : AppSettings → Text
path_bin s = s.path_data_base ++ codes "bin/"

unfoldable pub path_modules : AppSettings → Text
path_modules s = s.path_data_base ++ codes "modules.d/"

unfoldable pub path_module_templates : AppSettings → Text
path_module_templates s = s.path_data_base ++ codes "moduleTemplates/"

-- `initOverrides`.
unfoldable pub init_overrides : Surroundings → CommandLine → AppSettings → AppSettings
init_overrides z line s =
    let path = z.trim line.path_given in
    let given =
      if is_empty path then s.overrides else insert path_base_key (text_value path) s.overrides in
    record s {
      overrides = if line.verbose then insert verbose_key (flag_value true) given else given;
    }

-- `initPaths`.
unfoldable pub init_paths : Surroundings → AppSettings → AppSettings
init_paths z s = elim (lookup path_base_key s.overrides) [
  | none ↦ record s {
    path_data_base = z.documents ++ (codes "/" ++ (z.application_name ++ codes "/"));
  }
  | some v ↦ record s {
    path_data_base =
        variant_text v
        ++ ((if ends_with (variant_text v) b'/' then [] else codes "/")
            ++ (z.application_name ++ codes "/"));
  }
]

unfoldable pub read_each : Surroundings → Text → List Text → List Conf
read_each z base [] = []
read_each z base (name ∷ names) =
    open_conf z.storage (z.read_json (base ++ name)) ∷ read_each z base names

unfoldable pub read_modules : Surroundings → AppSettings → AppSettings
read_modules z s = record s {
  module_confs = read_each z (path_modules s) (z.configurations (path_modules s));
}

unfoldable pub put_stored : Text → Option Variant → AppSettings → AppSettings
put_stored key none s = s
put_stored key (some v) s = record s {
  stored = elim s.stored [ none ↦ none | some h ↦ some (insert key v h) ];
}

-- `pS->setValue(sKey, get(sKey))`.
unfoldable pub store_current : Surroundings → Text → AppSettings → AppSettings
store_current z key s = put_stored key (get z key s) s

unfoldable pub open_settings : Surroundings → AppSettings → AppSettings
open_settings z s = record s {
  stored = some (z.settings_file (s.path_data_base ++ codes "Settings.ini"));
}

-- `init`; the directories that `setupDirs` makes are in Settings/Folders.
unfoldable pub init_settings : Surroundings → CommandLine → AppSettings → AppSettings
init_settings z line s =
    if s.init_done
    then s
    else (let opened = open_settings z (read_modules z (init_paths z (init_overrides z line s))) in
        record (store_current z verbose_key (
          store_current z pid_path_file
            (store_current z https_path_key (store_current z https_path_cert opened)))) {
              init_done = true;
            })

-- `setValue`; `none` is a call on the null `pSettings`.
unfoldable pub set_setting_value : Text → Variant → AppSettings → Option AppSettings
set_setting_value key v s = elim s.stored [
  | none ↦ none
  | some h ↦ some (record s {
    overrides = if has_key key s.overrides then remove key s.overrides else s.overrides;
    stored = some (insert key v h);
  })
]
