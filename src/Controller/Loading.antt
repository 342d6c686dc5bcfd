-- ===== src/Controller/Loading.antt =====
-- `loadModules`: the modules have distinct names, which their configurations know.
pub mod Counted
use qt_sss_shttps.Common.{
  ℕ, zero, suc, ◌+◌, ◌≡◌, refl, ap, ◌∙◌, sym, Bool, true, false, ◌&&◌, ◌||◌, Option, none, some,
  if◌then◌else◌, List, [], ◌∷◌, ◌++◌, length, length-append, arith, Bool-cases, Option-cases, inl,
  inr, All, All-append, not, if-both,
}
use qt_sss_shttps.Text.{Text, codes, text_eq, contains}
use qt_sss_shttps.Text.Laws.{text_eq_iff, text_eq_symm}
use qt_sss_shttps.Hash.{Hash, lookup, insert, remove, keys, has_key}
use qt_sss_shttps.Conf.{Storage, Conf}
use qt_sss_shttps.Conf.Settings.{module_uid, set_module_uid, module_class}
use qt_sss_shttps.Conf.Laws.{set_text-IsUpdated}
use qt_sss_shttps.Controller.{
  Kind, ModuleClass, Controller, report, unique_uid, kind_of, add_module, load_module, load_each,
  load_modules,
}
use qt_sss_shttps.Controller.Names.{unique_uid-has_key}

abbrev pub Distinct : List Text → Type 0
Distinct [] = Unit
Distinct (uid ∷ uids) = (contains uids uid ≡ false) × Distinct uids

-- The list and the table have the same modules in the same order, under distinct names, and the
-- configuration of each module has its name.
pub record IsWellFormed {M : Type 0} (k : ModuleClass M) (c : Controller M) : Type 0 where
  pub same : keys c.modules ≡ c.uids
  pub distinct : Distinct c.uids
  pub named : All (λ e. module_uid (k.conf_of e.1) ≡ e.0) c.modules

pub contains-last :
    (uids : List Text) (uid other : Text)
    → contains (uids ++ (uid ∷ [])) other ≡ (contains uids other || text_eq uid other)
unfolding contains
contains-last [] uid other = ground arith
contains-last (u ∷ uids) uid other = ground (arith, contains-last uids uid other)

Distinct-append :
    (uids : List Text) (uid : Text)
    → contains uids uid ≡ false
    → Distinct uids
    → Distinct (uids ++ (uid ∷ []))
unfolding contains
Distinct-append [] uid e d = (refl, tt)
Distinct-append (u ∷ uids) uid e (f, d) = (
  contains-last uids uid u ∙ ground (arith, text_eq_symm u uid, e, f),
  Distinct-append uids uid (ground (arith, e)) d,
)

module _ {M : Type 0} where
  pub has_key-contains : (uid : Text) (h : Hash M) → has_key uid h ≡ contains (keys h) uid
  unfolding has_key keys contains
  has_key-contains uid [] = refl
  has_key-contains uid ((other, m) ∷ h) = ground (arith, has_key-contains uid h)

  insert_of_new :
      (uid : Text) (m : M) (h : Hash M)
      → has_key uid h ≡ false
      → insert uid m h ≡ h ++ ((uid, m) ∷ [])
  unfolding insert has_key
  insert_of_new uid m [] e = refl
  insert_of_new uid m ((other, n) ∷ h) e = ground (arith, insert_of_new uid m h)

  keys-last : (h : Hash M) (uid : Text) (m : M) → keys (h ++ ((uid, m) ∷ [])) ≡ keys h ++ (uid ∷ [])
  unfolding keys
  keys-last [] uid m = refl
  keys-last ((other, n) ∷ h) uid m = ap (λ t. other ∷ t) (keys-last h uid m)

module _ {M : Type 0} (k : ModuleClass M)
    (make_keeps : (kind : Kind) (conf : Conf) → k.conf_of (k.make kind conf) ≡ conf) where
  add_module-IsWellFormed :
      (uid name : Text) (o : Option Kind) (conf : Conf) (c : Controller M)
      → has_key uid c.modules ≡ false
      → module_uid conf ≡ uid
      → IsWellFormed k c
      → IsWellFormed k (add_module k uid name o conf c)
  unfolding add_module report
  add_module-IsWellFormed uid name none conf c e n w = record {
    same = w.same;
    distinct = w.distinct;
    named = w.named;
  }
  add_module-IsWellFormed uid name (some kind) conf c e n w = record {
    same =
        rw (insert_of_new uid (k.make kind conf) c.modules e)
          (keys-last c.modules uid (k.make kind conf) ∙ ap (λ t. t ++ (uid ∷ [])) w.same);
    distinct =
        Distinct-append c.uids uid
          (ap (λ t. contains t uid) (sym w.same) ∙ sym (has_key-contains uid c.modules) ∙ e)
          w.distinct;
    named =
        rw (insert_of_new uid (k.make kind conf) c.modules e)
          (All-append _ c.modules _ w.named (ap module_uid (make_keeps kind conf) ∙ n, tt));
  }

  set_module_uid-module_uid :
      (storage : Storage) (uid : Text) (conf : Conf)
      → module_uid (set_module_uid storage uid conf) ≡ uid
  unfolding module_uid set_module_uid
  set_module_uid-module_uid storage uid conf =
      (set_text-IsUpdated (codes "sUID") (codes "Unnamed") storage uid conf).read_back

  load_module-IsWellFormed :
      (storage : Storage) (conf : Conf) (c : Controller M)
      → IsWellFormed k c
      → IsWellFormed k (load_module k storage conf c)
  unfolding load_module report
  load_module-IsWellFormed storage conf c w =
      if-both (IsWellFormed k) (not conf.is_ok) _ _
        (record { same = w.same; distinct = w.distinct; named = w.named })
        (add_module-IsWellFormed _ _ _ _ c (unique_uid-has_key c.modules (module_uid conf))
          (set_module_uid-module_uid storage _ conf) w)

  load_each-IsWellFormed :
      (storage : Storage) (confs : List Conf) (c : Controller M)
      → IsWellFormed k c
      → IsWellFormed k (load_each k storage confs c)
  unfolding load_each
  load_each-IsWellFormed storage [] c w = w
  load_each-IsWellFormed storage (conf ∷ confs) c w =
      load_each-IsWellFormed storage confs (load_module k storage conf c)
        (load_module-IsWellFormed storage conf c w)

  load_modules-by :
      (storage : Storage) (confs : List Conf) (c : Controller M) (uids : List Text)
      → c.uids ≡ uids
      → IsWellFormed k c
      → IsWellFormed k (load_modules k storage confs c)
  unfolding load_modules report keys
  load_modules-by storage confs c [] e w =
      rw (e, load_modules)
        (load_each-IsWellFormed storage confs (record c { uids = []; modules = [] })
          (record { same = refl; distinct = tt; named = tt }))
  load_modules-by storage confs c (uid ∷ uids) e w =
      rw (e, load_modules) (record { same = w.same; distinct = w.distinct; named = w.named })

  -- Where a module keeps the configuration it is made with: loading any configurations into a
  -- well-formed controller leaves a well-formed one: the list and the table of the modules agree,
  -- all names are distinct, and each module has its name in its configuration, whatever names the
  -- configurations had.
  pub load_modules-IsWellFormed :
      (storage : Storage) (confs : List Conf) (c : Controller M)
      → IsWellFormed k c
      → IsWellFormed k (load_modules k storage confs c)
  load_modules-IsWellFormed storage confs c w = load_modules-by storage confs c c.uids refl w
