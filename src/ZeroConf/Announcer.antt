-- ===== src/ZeroConf/Announcer.antt =====
-- ModuleZeroConfig.cpp: the module that announces services.
use qt_sss_shttps.Common.{
  ℕ, ◌+◌, ◌==◌, Bool, true, false, not, Option, none, some, if◌then◌else◌, List, [], ◌∷◌, ◌++◌,
}
use qt_sss_shttps.Text.{Text, codes, text_eq, is_empty}
use qt_sss_shttps.Json.{Json, value, to_string, to_object}
use qt_sss_shttps.Conf.{Conf}
use qt_sss_shttps.Conf.Settings.{module_uid, zero_conf}
use qt_sss_shttps.Module.{is_active_module}
use qt_sss_shttps.ZeroConf.{
  AppNames, Descriptor, new_descriptor, label_of, is_published, records_of, service_name_of,
  type_of, domain_of, port_of,
}

-- What `startServicePublish` is called with, after the text records.
pub record Announcement : Type 0 where
  pub records : List (Text × Option Text)
  pub name : Text
  pub service_type : Text
  pub domain : Text
  pub port : ℕ

-- `services` is `apZCservices`, whose pointers are the numbers of the `QZeroConf` objects. `alive`
-- are the objects that are not deleted; all of them publish.
pub record Announcer : Type 0 where
  pub conf : Conf
  pub running : Bool
  pub descriptors : List Descriptor
  pub services : List ℕ
  pub created : ℕ
  pub alive : List (ℕ × Announcement)

-- The constructor.
abbrev pub new_announcer : Conf → Announcer
new_announcer c = record {
  conf = c;
  running = false;
  descriptors = [];
  services = [];
  created = 0;
  alive = [];
}

unfoldable pub sent_record : Json → Text × Option Text
sent_record v =
    let content = to_string [] (value (codes "sValue") (to_object v)) in
    (label_of v, if is_empty content then none else some content)

unfoldable pub sent_records : List Json → List (Text × Option Text)
sent_records [] = []
sent_records (v ∷ vs) = sent_record v ∷ sent_records vs

unfoldable pub announcement : Descriptor → Announcement
announcement d = record {
  records = sent_records (records_of d);
  name = service_name_of d;
  service_type = type_of d;
  domain = domain_of d;
  port = port_of d;
}

-- `publish`: the descriptor with its service, and the module.
unfoldable pub publish : Descriptor → Announcer → Descriptor × Announcer
publish d a = if not d.is_fine then (d, a) else if not (is_published d) then (d, a) else (
  record d { announced = some a.created },
  record a {
    services = a.services ++ (a.created ∷ []);
    created = a.created + 1;
    alive = a.alive ++ ((a.created, announcement d) ∷ []);
  },
)

abbrev pub is_owned : Text → Descriptor → Bool
is_owned uid d = text_eq uid d.owner

-- The loop of `onStartZeroConfServices`, and of `start` where every descriptor is meant: the
-- descriptors as they are left, and the module.
unfoldable pub publish_each :
    (Descriptor → Bool) → List Descriptor → Announcer → List Descriptor × Announcer
publish_each chosen [] a = ([], a)
publish_each chosen (d ∷ ds) a =
    let (e, b) = if chosen d then publish d a else (d, a) in
    let (es, c) = publish_each chosen ds b in (e ∷ es, c)

unfoldable pub publish_chosen : (Descriptor → Bool) → Announcer → Announcer
publish_chosen chosen a =
    let (ds, b) = publish_each chosen a.descriptors a in record b { descriptors = ds }

-- `removeOne`.
unfoldable pub remove_number : ℕ → List ℕ → List ℕ
remove_number n [] = []
remove_number n (m ∷ ms) = if m == n then ms else m ∷ remove_number n ms

unfoldable pub is_alive : ℕ → List (ℕ × Announcement) → Bool
is_alive n [] = false
is_alive n ((m, x) ∷ xs) = if m == n then true else is_alive n xs

unfoldable pub delete_object : ℕ → List (ℕ × Announcement) → List (ℕ × Announcement)
delete_object n [] = []
delete_object n ((m, x) ∷ xs) =
    let rest = delete_object n xs in if m == n then rest else (m, x) ∷ rest

-- `stopServicePublish` and `delete`; `none` is a call on an object that was deleted.
unfoldable pub withdraw : ℕ → Announcer → Option Announcer
withdraw n a =
    if is_alive n a.alive then some (record a { alive = delete_object n a.alive }) else none

unfoldable pub stop_one : Descriptor → Announcer → Option (Descriptor × Announcer)
stop_one d a = elim d.announced [
  | none ↦ some (d, a)
  | some n ↦ elim (withdraw n (record a { services = remove_number n a.services })) [
    | none ↦ none
    | some b ↦ some (record d { announced = none }, b)
  ]
]

unfoldable pub cons_stopped :
    Descriptor → Option (List Descriptor × Announcer) → Option (List Descriptor × Announcer)
cons_stopped d none = none
cons_stopped d (some (ds, a)) = some (d ∷ ds, a)

-- The loop of `onStopZeroConfServices`.
unfoldable pub stop_owned :
    Text → List Descriptor → Announcer → Option (List Descriptor × Announcer)
stop_owned uid [] a = some ([], a)
stop_owned uid (d ∷ ds) a = elim (if is_owned uid d then stop_one d a else some (d, a)) [
  | none ↦ none
  | some r ↦ cons_stopped r.0 (stop_owned uid ds r.1)
]

unfoldable pub put_descriptors : Option (List Descriptor × Announcer) → Option Announcer
put_descriptors none = none
put_descriptors (some (ds, a)) = some (record a { descriptors = ds })

unfoldable pub on_stop_services : Text → Announcer → Option Announcer
on_stop_services uid a = put_descriptors (stop_owned uid a.descriptors a)

unfoldable pub on_start_services : Text → Announcer → Option Announcer
on_start_services uid a =
    if not (is_active_module a.conf) then some a else elim (on_stop_services uid a) [
      | none ↦ none
      | some b ↦ some (publish_chosen (is_owned uid) b)
    ]

unfoldable pub add_published : Descriptor × Announcer → Announcer
add_published (d, a) = record a { descriptors = a.descriptors ++ (d ∷ []) }

-- `onAddServiceDescriptor`.
unfoldable pub on_add_descriptor : Descriptor → Announcer → Announcer
on_add_descriptor d a =
    if not d.is_fine
    then a
    else if a.running
    then add_published (publish d a)
    else record a { descriptors = a.descriptors ++ (d ∷ []) }

unfoldable pub without_owner : Text → List Descriptor → List Descriptor
without_owner uid [] = []
without_owner uid (d ∷ ds) =
    let rest = without_owner uid ds in if is_owned uid d then rest else d ∷ rest

-- `onRemoveServiceDescriptors`; it starts the services of the module first.
unfoldable pub on_remove_descriptors : Text → Announcer → Option Announcer
on_remove_descriptors uid a = elim (on_start_services uid a) [
  | none ↦ none
  | some b ↦ some (record b { descriptors = without_owner uid b.descriptors })
]

unfoldable pub clear_pointers : List Descriptor → List Descriptor
clear_pointers [] = []
clear_pointers (d ∷ ds) = record d { announced = none } ∷ clear_pointers ds

-- `stopServicePublish` and then `delete` of every service of the list.
unfoldable pub withdraw_each : List ℕ → Announcer → Option Announcer
withdraw_each [] a = some a
withdraw_each (n ∷ ns) a = elim (withdraw n a) [ none ↦ none | some b ↦ withdraw_each ns b ]

-- What `stop` does after that of the base class. The list of services is not cleared.
unfoldable pub stop_all : Announcer → Option Announcer
stop_all a =
    elim (withdraw_each a.services (record a { descriptors = clear_pointers a.descriptors })) [
      | none ↦ none
      | some b ↦ some (record b { running = false })
    ]

-- `stop`: that of the base class has the services of this module's own name stopped, by the signal
-- `stopZeroConfServices`.
unfoldable pub stop_announcer : Announcer → Option Announcer
stop_announcer a = elim (on_stop_services (module_uid a.conf) a) [
  | none ↦ none
  | some b ↦ stop_all b
]

-- `registerZeroConfServices` of the module with that name, whose signal this module is connected to.
unfoldable pub register_each : AppNames → Text → List Json → Announcer → Announcer
register_each n uid [] a = a
register_each n uid (v ∷ vs) a =
    register_each n uid vs (on_add_descriptor (new_descriptor n uid (to_object v)) a)

-- The part of `start` after `ModuleBase::start`: all descriptors are published, those of its own
-- for the second time.
unfoldable pub publish_all : Announcer → Announcer
publish_all a = record (publish_chosen (λ d. true) (record a { services = [] })) { running = true }

unfoldable pub start_stopped : AppNames → Announcer → Option Announcer
start_stopped n a =
    let uid = module_uid a.conf in
    elim (on_start_services uid (register_each n uid (zero_conf a.conf) a)) [
      | none ↦ none
      | some b ↦ some (publish_all b)
    ]

-- `start`.
unfoldable pub start_announcer : AppNames → Announcer → Option Announcer
start_announcer n a =
    if not (is_active_module a.conf)
    then some a
    else if a.running
    then elim (stop_announcer a) [ none ↦ none | some b ↦ start_stopped n b ]
    else start_stopped n a

-- `init`.
unfoldable pub init_announcer : Announcer → Announcer
init_announcer a = record a { descriptors = []; services = [] }

-- `die`: `ModuleBase::die` stops and has the descriptors of this module removed.
unfoldable pub die_announcer : Announcer → Option Announcer
die_announcer a = elim (stop_announcer a) [
  | none ↦ none
  | some b ↦ elim (on_remove_descriptors (module_uid b.conf) b) [
    | none ↦ none
    | some c ↦ some (record c { services = []; descriptors = [] })
  ]
]
