-- ===== src/Tests/Controllers.antt =====
-- The application controller on concrete inputs.
use qt_sss_shttps.Common.{refl, true, false, none, List, [], ◌∷◌}
use qt_sss_shttps.Text.{codes}
use qt_sss_shttps.Hash.{keys}
use qt_sss_shttps.Json.{end, field, str, object}
use qt_sss_shttps.Conf.{Conf}
use qt_sss_shttps.Controller.{Controller, load_modules}
use qt_sss_shttps.Controller.Loading.{IsWellFormed, load_modules-IsWellFormed}
use qt_sss_shttps.Controller.Dispatch.{dispatch}
use qt_sss_shttps.Controller.Plain.{plain_class}
use qt_sss_shttps.Controller.Ending.{Ends}
use qt_sss_shttps.Controller.Ending.Ranked.{plain_class-dispatch-Ends}
use qt_sss_shttps.Tests.Confs.{disk_file}
use qt_sss_shttps.Tests.Modules.{ping_message}

abbrev pub app_conf : Conf
app_conf = record {
  changed = false;
  is_ok = true;
  document = object (
      field (codes "sUID") (str (codes "app"))
        (field (codes "sClass") (str (codes "ModuleBase")) end));
  stored = none;
}

-- Two configurations of the same name.
abbrev pub twins : List Conf
twins = app_conf ∷ app_conf ∷ []

abbrev pub no_modules : Controller Conf
no_modules = record { uids = []; modules = []; journal = [] }

pub no_modules-IsWellFormed : IsWellFormed (plain_class disk_file) no_modules
unfolding keys
no_modules-IsWellFormed = record { same = refl; distinct = tt; named = tt }

abbrev loaded_twins : Controller Conf
loaded_twins = load_modules (plain_class disk_file) disk_file twins no_modules

load_modules-IsWellFormed_example : IsWellFormed (plain_class disk_file) loaded_twins
unfolding plain_class
load_modules-IsWellFormed_example =
    load_modules-IsWellFormed (plain_class disk_file) (λ kind conf. refl) disk_file twins no_modules
      no_modules-IsWellFormed

plain_class-dispatch-Ends_example :
    Ends (dispatch (plain_class disk_file) 3 (codes "app" ∷ []) ping_message loaded_twins)
plain_class-dispatch-Ends_example =
    plain_class-dispatch-Ends disk_file (codes "app" ∷ []) ping_message loaded_twins
