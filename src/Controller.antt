-- ===== src/Controller.antt =====
-- AppController.cpp: the modules of the application, their life and the bus between them.
pub mod Tables
pub mod Starting
pub mod Names
pub mod Loading
pub mod Quitting
pub mod Dispatch
pub mod Ending
pub mod Plain
use qt_sss_shttps.Common.{
  ℕ, zero, suc, Bool, true, false, Option, none, some, not, if◌then◌else◌, List, [], ◌∷◌, ◌++◌,
  length, get_elem?,
}
use qt_sss_shttps.Text.{Text, codes, text_eq}
use qt_sss_shttps.Hash.{Hash, lookup, insert, remove, has_key}
use qt_sss_shttps.Json.{Fields}
use qt_sss_shttps.Conf.{Storage, Conf}
use qt_sss_shttps.Conf.Settings.{module_class, module_uid, set_module_uid}
use qt_sss_shttps.Module.{is_active_module}

-- The classes of modules that `loadModules` knows.
pub data Kind : Type 0 where
  app_control base https_server zero_config : Kind

-- What a module asks of the controller while it handles a message.
pub data Request : Type 0 where
  sends : (receivers : List Text) → Fields → Request
  asks_quit : Request

-- The modules as the controller uses them: their constructors and virtual methods. A method yields
-- `none` where it calls through a null pointer.
pub record ModuleClass (M : Type 0) : Type 0 where
  pub make : Kind → Conf → M
  pub conf_of : M → Conf
  pub init : M → Option M
  pub start : M → Option M
  pub stop : M → Option M
  pub die : M → Option M
  pub on_message : Fields → M → Option (M × List Request)

-- What the controller reports: its debug messages and its signals.
pub data Entry : Type 0 where
  already_loaded initialized_all started_all stopped_all finished_all : Entry
  unreadable : Entry
  loaded unknown_class initialized started stopped killed unknown_receiver : Text → Entry

-- `uids` is `asModules`, and `modules` is `hpModules`.
pub record Controller (M : Type 0) : Type 0 where
  pub uids : List Text
  pub modules : Hash M
  pub journal : List Entry

-- What a call comes to: the controller it leaves, a call through a null pointer, or none, where the
-- fuel of the bus is used up.
pub data Outcome (M : Type 0) : Type 0 where
  leaves : Controller M → Outcome M
  null_pointer unfinished : Outcome M

module _ {M : Type 0} where
  unfoldable pub and_then : Outcome M → (Controller M → Outcome M) → Outcome M
  and_then (leaves c) f = f c
  and_then null_pointer f = null_pointer
  and_then unfinished f = unfinished

  unfoldable pub report : Entry → Controller M → Controller M
  report e c = record c { journal = c.journal ++ (e ∷ []) }

  -- `while (hpModules.contains(sUID)) sUID += "."`.
  unfoldable pub unique_uid : (fuel : ℕ) → Hash M → Text → Text
  unique_uid zero h uid = uid
  unique_uid (suc fuel) h uid =
      let longer = unique_uid fuel h (uid ++ codes ".") in if has_key uid h then longer else uid

-- The comparisons of `loadModules`, in its order.
unfoldable pub kind_of : Text → Option Kind
kind_of name =
    if text_eq name (codes "ModuleAppControl")
    then some app_control
    else if text_eq name (codes "ModuleBase")
    then some base
    else if text_eq name (codes "ModuleHTTPSserver")
    then some https_server
    else if text_eq name (codes "ModuleZeroConfig")
    then some zero_config
    else none

module _ {M : Type 0} (k : ModuleClass M) where
  unfoldable pub add_module :
      (uid class_name : Text) → Option Kind → Conf → Controller M → Controller M
  add_module uid class_name none conf c = report (unknown_class class_name) c
  add_module uid class_name (some kind) conf c =
      report (loaded uid) (record c {
        uids = c.uids ++ (uid ∷ []);
        modules = insert uid (k.make kind conf) c.modules;
      })

  -- The body of the loop of `loadModules`. The loop that makes the name unique runs at most once
  -- for every module that is there.
  unfoldable pub load_module : (storage : Storage) → Conf → Controller M → Controller M
  load_module storage conf c =
      if not conf.is_ok
      then report unreadable c
      else (let uid = unique_uid (length c.modules) c.modules (module_uid conf) in
          add_module uid (module_class conf) (kind_of (module_class conf))
            (set_module_uid storage uid conf) c)

  unfoldable pub load_each : (storage : Storage) → List Conf → Controller M → Controller M
  load_each storage [] c = c
  load_each storage (conf ∷ confs) c = load_each storage confs (load_module storage conf c)

  unfoldable pub load_modules : (storage : Storage) → List Conf → Controller M → Controller M
  load_modules storage confs c = elim c.uids [
    | uid ∷ uids ↦ report already_loaded c
    | [] ↦ load_each storage confs (record c { uids = []; modules = [] })
  ]

  unfoldable pub put : Text → Entry → Option M → Controller M → Outcome M
  put uid e none c = null_pointer
  put uid e (some m) c = leaves (report e (record c { modules = insert uid m c.modules }))

  -- A call of a method of the module with that name.
  unfoldable pub call : (M → Option M) → (Text → Entry) → Text → Controller M → Outcome M
  call method entry uid c = elim (lookup uid c.modules) [
    | none ↦ null_pointer
    | some m ↦ put uid (entry uid) (method m) c
  ]

  unfoldable pub init_each : List Text → Controller M → Outcome M
  init_each [] c = leaves c
  init_each (uid ∷ uids) c = and_then (call k.init initialized uid c) (init_each uids)

  unfoldable pub init_modules : Controller M → Outcome M
  init_modules c = and_then (init_each c.uids c) (λ d. leaves (report initialized_all d))

  -- A module that is not active is passed over.
  unfoldable pub start_one : Text → Controller M → Outcome M
  start_one uid c = elim (lookup uid c.modules) [
    | none ↦ null_pointer
    | some m ↦
        if is_active_module (k.conf_of m) then put uid (started uid) (k.start m) c else leaves c
  ]

  unfoldable pub start_each : List Text → Controller M → Outcome M
  start_each [] c = leaves c
  start_each (uid ∷ uids) c = and_then (start_one uid c) (start_each uids)

  unfoldable pub start_modules : Controller M → Outcome M
  start_modules c = and_then (start_each c.uids c) (λ d. leaves (report started_all d))

  -- From the last module to the first.
  unfoldable pub stop_each : List Text → Controller M → Outcome M
  stop_each [] c = leaves c
  stop_each (uid ∷ uids) c = and_then (stop_each uids c) (call k.stop stopped uid)

  unfoldable pub stop_modules : Controller M → Outcome M
  stop_modules c = and_then (stop_each c.uids c) (λ d. leaves (report stopped_all d))

  unfoldable pub take_out : Text → Option M → Controller M → Outcome M
  take_out uid none c = null_pointer
  take_out uid (some m) c =
      leaves (report (killed uid) (record c { modules = remove uid c.modules }))

  unfoldable pub kill_one : Text → Controller M → Outcome M
  kill_one uid c = elim (lookup uid c.modules) [
    | none ↦ null_pointer
    | some m ↦ take_out uid (k.die m) c
  ]

  unfoldable pub kill_each : List Text → Controller M → Outcome M
  kill_each [] c = leaves c
  kill_each (uid ∷ uids) c = and_then (kill_each uids c) (kill_one uid)

  unfoldable pub kill_modules : Controller M → Outcome M
  kill_modules c =
      and_then (kill_each c.uids c) (λ d. leaves (record d { uids = []; modules = [] }))

  -- `quit`; the settings that it writes are not part of this state.
  unfoldable pub quit : Controller M → Outcome M
  quit c =
      and_then (stop_modules c)
        (λ d. and_then (kill_modules d) (λ x. leaves (report finished_all x)))

  -- The part of `run` that concerns the modules, for the configurations that were read.
  unfoldable pub run : (storage : Storage) → List Conf → Controller M → Outcome M
  run storage confs c = and_then (init_modules (load_modules storage confs c)) start_modules
