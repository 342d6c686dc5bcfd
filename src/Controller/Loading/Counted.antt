-- ===== src/Controller/Loading/Counted.antt =====
-- `loadModules`: how many modules are made.
use qt_sss_shttps.Common.{
  ℕ, ◌+◌, ◌≡◌, ◌∙◌, Bool, true, false, ◌&&◌, Option, none, some, if◌then◌else◌, List, [], ◌∷◌,
  length, length-append, arith,
}
use qt_sss_shttps.Text.{Text}
use qt_sss_shttps.Conf.{Storage, Conf}
use qt_sss_shttps.Conf.Settings.{module_uid, set_module_uid, module_class}
use qt_sss_shttps.Controller.{
  Kind, ModuleClass, Controller, report, unique_uid, kind_of, add_module, load_module, load_each,
  load_modules,
}

-- The configurations that a module is made of.
abbrev pub is_loadable : Conf → Bool
is_loadable conf =
    conf.is_ok && (elim (kind_of (module_class conf)) [ none ↦ false | some kind ↦ true ])

abbrev pub count_loadable : List Conf → ℕ
count_loadable [] = 0
count_loadable (conf ∷ confs) = (if is_loadable conf then 1 else 0) + count_loadable confs

module _ {M : Type 0} (k : ModuleClass M) where
  add_module-length :
      (uid name : Text) (o : Option Kind) (conf : Conf) (c : Controller M)
      → length (add_module k uid name o conf c).uids
        ≡ (elim o [ none ↦ 0 | some kind ↦ 1 ]) + length c.uids
  unfolding add_module report
  add_module-length uid name none conf c = omega arith
  add_module-length uid name (some kind) conf c = omega (arith, length-append c.uids (uid ∷ []))

  load_module-length :
      (storage : Storage) (conf : Conf) (c : Controller M)
      → length (load_module k storage conf c).uids
        ≡ (if is_loadable conf then 1 else 0) + length c.uids
  unfolding load_module report
  load_module-length storage conf c = ground (
    arith,
    add_module-length (unique_uid (length c.modules) c.modules (module_uid conf))
        (module_class conf) (kind_of (module_class conf))
        (set_module_uid storage (unique_uid (length c.modules) c.modules (module_uid conf)) conf) c,
  )

  load_each-length :
      (storage : Storage) (confs : List Conf) (c : Controller M)
      → length (load_each k storage confs c).uids ≡ count_loadable confs + length c.uids
  unfolding load_each
  load_each-length storage [] c = omega arith
  load_each-length storage (conf ∷ confs) c = omega (
    arith,
    load_each-length storage confs (load_module k storage conf c),
    load_module-length storage conf c,
  )

  -- Loading makes one module for each configuration that could be read and names a known class.
  pub load_modules-length :
      (storage : Storage) (confs : List Conf) (c : Controller M)
      → c.uids ≡ []
      → length (load_modules k storage confs c).uids ≡ count_loadable confs
  unfolding load_modules
  load_modules-length storage confs c e =
      rw (e, load_modules)
        (load_each-length storage confs (record c { uids = []; modules = [] }) ∙ omega arith)
