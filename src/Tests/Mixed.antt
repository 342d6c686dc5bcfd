-- ===== src/Tests/Mixed.antt =====
-- Applications with modules of several classes, on concrete configurations.
use qt_sss_shttps.Common.{◌≡◌, refl, true, List, [], ◌∷◌}
use qt_sss_shttps.Text.{Text, codes, text_eq, contains}
use qt_sss_shttps.Hash.{keys, lookup}
use qt_sss_shttps.Json.{object, field, bool, str, end, to_string, value, to_object}
use qt_sss_shttps.Conf.{Conf, text_at, value_at}
use qt_sss_shttps.Conf.Settings.{module_uid, module_class}
use qt_sss_shttps.Controller.{
  Controller, kind_of, ModuleClass, null_pointer, quit, run, load_modules,
}
use qt_sss_shttps.Controller.Loading.{IsWellFormed}
use qt_sss_shttps.Controller.Plain.{plain_class}
use qt_sss_shttps.Controller.Starting.Lived.{HasRun, HasLived}
use qt_sss_shttps.HttpsServer.Running.{new_https_module}
use qt_sss_shttps.Application.Modules.{AnyModule, https_module, conf_of_any, any_class}
use qt_sss_shttps.Application.Modules.Crashing.{any_class-quit}
use qt_sss_shttps.Application.Modules.Up.{IsUp, is_silent}
use qt_sss_shttps.Application.Modules.Started.{any_class-HasRun}
use qt_sss_shttps.Application.Modules.Ended.{IsBase, is_base, any_class-HasLived}
use qt_sss_shttps.AppControl.{Pem}
use qt_sss_shttps.Tests.Samples.{ascii_codec, prefix_engine}
use qt_sss_shttps.Tests.Modules.{local_resolver, module_conf}
use qt_sss_shttps.Tests.Controls.{no_key}
use qt_sss_shttps.Tests.Controllers.{twins}
use qt_sss_shttps.Tests.Confs.{disk_file}

-- The modules of the base class stand for those that announce services.
abbrev mixed_class : ModuleClass (AnyModule Conf)
mixed_class =
    any_class ascii_codec prefix_engine local_resolver no_key disk_file (λ n. n) true true true
      (plain_class disk_file)

abbrev mixed : Controller (AnyModule Conf)
mixed = record {
  uids = module_uid module_conf ∷ [];
  modules = (module_uid module_conf, https_module (new_https_module module_conf)) ∷ [];
  journal = [];
}

mixed-IsWellFormed : IsWellFormed mixed_class mixed
unfolding keys any_class conf_of_any contains
mixed-IsWellFormed = record { same = refl; distinct = (refl, tt); named = (refl, tt) }

any_class-quit_example : quit mixed_class mixed ≡ null_pointer
unfolding lookup text_eq module_uid text_at value_at to_string value to_object
any_class-quit_example =
    any_class-quit ascii_codec prefix_engine local_resolver no_key disk_file (λ n. n) true true true
      (plain_class disk_file) mixed (module_uid module_conf)
      (https_module (new_https_module module_conf)) mixed-IsWellFormed (λ s f. absurd (cc f), tt)
      refl refl

abbrev pub nothing : Controller (AnyModule Conf)
nothing = record { uids = []; modules = []; journal = [] }

-- A certificate and a key that can be read.
abbrev pub good_key : Pem
good_key = record { exists_at = λ path. true; is_certificate = λ path. true; is_key = λ path. true }

abbrev pub of_class : Text → Conf
of_class name = record module_conf {
  document = object (field (codes "bActive") (bool true) (field (codes "sClass") (str name) end));
}

abbrev web_confs : List Conf
web_confs = of_class (codes "ModuleAppControl") ∷ of_class (codes "ModuleHTTPSserver") ∷ []

abbrev pub web_class : ModuleClass (AnyModule Conf)
web_class =
    any_class ascii_codec prefix_engine local_resolver good_key disk_file (λ n. n) true true true
      (plain_class disk_file)

pub nothing-IsWellFormed : IsWellFormed web_class nothing
unfolding keys
nothing-IsWellFormed = record { same = refl; distinct = tt; named = tt }

any_class-HasRun_example :
    HasRun web_class
      (IsUp good_key)
      (load_modules web_class disk_file web_confs nothing)
      (run web_class disk_file web_confs nothing)
unfolding plain_class is_silent kind_of module_class text_at value_at to_string value to_object
    text_eq
any_class-HasRun_example =
    any_class-HasRun ascii_codec prefix_engine local_resolver good_key disk_file (λ n. n) true
      (plain_class disk_file) (λ kind conf. refl) web_confs nothing (refl, (refl, tt))
      nothing-IsWellFormed refl

any_class-HasLived_example :
    HasLived web_class IsBase
      (load_modules web_class disk_file twins nothing)
      (run web_class disk_file twins nothing)
unfolding plain_class is_base kind_of module_class text_at value_at to_string value to_object
    text_eq
any_class-HasLived_example =
    any_class-HasLived ascii_codec prefix_engine local_resolver good_key disk_file (λ n. n) true
      (plain_class disk_file) (λ kind conf. refl) twins nothing (refl, (refl, tt))
      nothing-IsWellFormed refl
