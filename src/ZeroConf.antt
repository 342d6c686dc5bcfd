-- ===== src/ZeroConf.antt =====
-- ZeroConfHelpers.h and ZeroConfHelpers.cpp: the descriptors of services that are announced or found.
pub mod Browser
pub mod Described
pub mod Announcer
pub mod Withdrawing
pub mod Stopping
pub mod Removing
pub mod Signals
use qt_sss_shttps.Common.{
  ℕ, suc, ◌-◌, ◌%◌, ◌^◌, ◌==◌, Bool, true, false, ◌&&◌, ◌||◌, Option, none, some, if◌then◌else◌,
  List, [], ◌∷◌, ◌++◌, map, ℤ, pos, negsuc, to_int32,
}
use qt_sss_shttps.Text.{Text, codes, text_eq, is_empty}
use qt_sss_shttps.Json.{
  Json, bool, number, str, array, object, Fields, end, value, insert, to_bool, to_int, to_string,
  to_array, to_items, to_object,
}
use qt_sss_shttps.Conf.{to_uint16}

-- The name, the full name and the version of the application, which the build sets.
pub record AppNames : Type 0 where
  pub short_name : Text
  pub full_name : Text
  pub version : Text

-- `announced`: the `QZeroConf` that `pService` points to, by its number.
pub record Descriptor : Type 0 where
  pub is_browser_info : Bool
  pub is_fine : Bool
  pub service : Fields
  pub announced : Option ℕ
  pub owner : Text

-- What the framework for announcements tells of a service that it found.
pub record FoundService : Type 0 where
  pub domain : Text
  pub name : Text
  pub port : ℕ
  pub service_type : Text
  pub host : Text
  pub ip : Text
  pub ipv6 : Text
  pub interface_index : ℕ
  pub txt : List (Text × Text)

unfoldable pub text_record : (label content : Text) → Json
text_record label content =
    object (insert (codes "sValue") (str content) (insert (codes "sLabel") (str label) end))

unfoldable pub text_records_of : List (Text × Text) → List Json
text_records_of [] = []
text_records_of ((label, content) ∷ ts) = text_record label content ∷ text_records_of ts

-- The constructor from a service that was found.
unfoldable pub found_descriptor : FoundService → Descriptor
found_descriptor f = record {
  is_browser_info = true;
  is_fine = true;
  service = insert (codes "aTextRecords") (array (to_items (text_records_of f.txt))) (
      insert (codes "interfaceIndex") (number (to_int32 f.interface_index)) (
        insert (codes "ipv6") (str f.ipv6) (
          insert (codes "ip") (str f.ip) (
            insert (codes "host") (str f.host) (
              insert (codes "sType") (str f.service_type) (
                insert (codes "uiPort") (number (pos f.port)) (
                  insert (codes "sServiceName") (str f.name) (
                    insert (codes "sDomain") (str f.domain)
                      (insert (codes "bPublish") (bool false) end)))))))));
  announced = none;
  owner = [];
}

abbrev pub label_of : Json → Text
label_of v = to_string [] (value (codes "sLabel") (to_object v))

-- The records of the configuration that have a label.
unfoldable pub labelled : List Json → List Json
labelled [] = []
labelled (v ∷ vs) =
    let rest = labelled vs in
    if is_empty (label_of v)
    then rest
    else text_record (label_of v) (to_string [] (value (codes "sValue") (to_object v))) ∷ rest

-- `bGotAppName` and `bGotVersion`.
unfoldable pub has_label : Text → List Json → Bool
has_label name [] = false
has_label name (v ∷ vs) = text_eq (label_of v) name || has_label name vs

unfoldable pub unless_given : Text → Text → List Json → List Json
unless_given name content vs = if has_label name vs then [] else text_record name content ∷ []

unfoldable pub all_records : AppNames → (module_uid : Text) → List Json → List Json
all_records n uid vs =
    labelled vs
    ++ (text_record (codes "moduleUID") uid
        ∷ (unless_given (codes "appNameFull") n.full_name vs
            ++ unless_given (codes "version") n.version vs))

abbrev pub blank_descriptor : Text → Fields → Descriptor
blank_descriptor uid service = record {
  is_browser_info = false;
  is_fine = false;
  service = service;
  announced = none;
  owner = uid;
}

abbrev pub wanted_port : Fields → ℕ
wanted_port fs = to_uint16 (to_int (pos 0) (value (codes "uiPort") fs))

abbrev pub wanted_type : Fields → Text
wanted_type fs = to_string [] (value (codes "sType") fs)

abbrev pub wanted_name : AppNames → Text → Fields → Text
wanted_name n uid fs =
    to_string (n.short_name ++ (codes ":" ++ uid)) (value (codes "sServiceName") fs)

abbrev pub wanted_domain : Fields → Text
wanted_domain fs = to_string (codes "local") (value (codes "sDomain") fs)

unfoldable pub port_and_type : Fields → Fields
port_and_type fs =
    insert (codes "sType") (str (wanted_type fs))
      (insert (codes "uiPort") (number (pos (wanted_port fs))) end)

unfoldable pub full_service : AppNames → Text → Fields → Fields
full_service n uid fs =
    insert (codes "aTextRecords")
      (array (to_items (all_records n uid (to_array (value (codes "aTextRecords") fs)))))
      (insert (codes "sServiceName") (str (wanted_name n uid fs)) (
        insert (codes "sDomain") (str (wanted_domain fs)) (
          insert (codes "bPublish") (bool (to_bool false (value (codes "bPublish") fs)))
            (port_and_type fs))))

-- The constructor from an entry of the configuration.
unfoldable pub new_descriptor : AppNames → (module_uid : Text) → Fields → Descriptor
new_descriptor n uid fs =
    if is_empty uid
    then blank_descriptor uid end
    else if wanted_port fs == 0
    then blank_descriptor uid end
    else if is_empty (wanted_type fs)
    then blank_descriptor uid (insert (codes "uiPort") (number (pos (wanted_port fs))) end)
    else record (blank_descriptor uid (full_service n uid fs)) { is_fine = true }

-- An `int` as a `quint32`.
unfoldable pub to_uint32 : ℤ → ℕ
to_uint32 (pos n) = n % 2 ^ 32
to_uint32 (negsuc n) = 2 ^ 32 - 1 - n % 2 ^ 32

abbrev pub field_text : Text → Descriptor → Text
field_text tag d = to_string [] (value tag d.service)

unfoldable pub domain_of : Descriptor → Text
domain_of d = if d.is_fine then field_text (codes "sDomain") d else codes "local"

unfoldable pub host_of : Descriptor → Text
host_of d = if d.is_fine && d.is_browser_info then field_text (codes "host") d else []

unfoldable pub interface_index_of : Descriptor → ℕ
interface_index_of d =
    if d.is_fine && d.is_browser_info
    then to_uint32 (to_int (pos 0) (value (codes "interfaceIndex") d.service))
    else 0

unfoldable pub ip_of : Descriptor → Text
ip_of d = if d.is_fine && d.is_browser_info then field_text (codes "ip") d else []

unfoldable pub ipv6_of : Descriptor → Text
ipv6_of d = if d.is_fine && d.is_browser_info then field_text (codes "ipv6") d else []

unfoldable pub is_published : Descriptor → Bool
is_published d = if d.is_fine then to_bool false (value (codes "bPublish") d.service) else false

unfoldable pub port_of : Descriptor → ℕ
port_of d = if d.is_fine then to_uint16 (to_int (pos 0) (value (codes "uiPort") d.service)) else 0

unfoldable pub service_name_of : Descriptor → Text
service_name_of d = if d.is_fine then field_text (codes "sServiceName") d else codes "null"

unfoldable pub records_of : Descriptor → List Json
records_of d = if d.is_fine then to_array (value (codes "aTextRecords") d.service) else []

unfoldable pub type_of : Descriptor → Text
type_of d = if d.is_fine then field_text (codes "sType") d else codes "null"
