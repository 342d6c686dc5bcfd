-- ===== src/Conf.antt =====
-- PersistantObject and ModuleConf: a configuration that is kept in a JSON file.
pub mod Settings
pub mod Laws
use qt_sss_shttps.Common.{
  ℕ, ◌%◌, ◌-◌, ◌^◌, ◌==◌, Bool, true, false, ◌&&◌, Option, none, some, not, if◌then◌else◌, List, [],
  ◌∷◌, map, ℤ, pos, negsuc,
}
use qt_sss_shttps.Text.{Text, codes, text_eq}
use qt_sss_shttps.Json.{
  Json, bool, number, str, array, object, Fields, end, value, insert, to_bool, to_int, to_string,
  to_array, to_items, to_object,
}

-- The file of an object, as it is written: whether it can be opened for writing, and, where it can,
-- what `QJsonDocument::fromJson` makes of what is then in it, for the document whose `toJson` was
-- to be written. A write that fails leaves something else.
pub record Storage : Type 0 where
  pub opens : Bool
  pub rereads : Json → Json

-- `document` is `oJdoc`. `stored` is what `QJsonDocument::fromJson` makes of the file at the path,
-- `none` where the file cannot be opened for reading.
pub record Conf : Type 0 where
  pub changed : Bool
  pub is_ok : Bool
  pub document : Json
  pub stored : Option Json

-- `save`. The result of the write is not looked at.
unfoldable pub save : (storage : Storage) → Conf → Conf × Bool
save storage c =
    if not c.changed
    then (c, true)
    else if storage.opens
    then (record c { stored = some (storage.rereads c.document); changed = false }, true)
    else (c, false)

unfoldable pub is_object : Json → Bool
is_object (object fs) = true
is_object _ = false

-- The end of the constructor, once the file could be read.
unfoldable pub accept_document : Json → Conf → Conf
accept_document v c = record c { document = v; is_ok = is_object v }

unfoldable pub reread : Conf × Bool → Conf
reread (c, false) = c
reread (c, true) = elim c.stored [ none ↦ c | some v ↦ accept_document v c ]

-- The constructor, for what the file holds.
unfoldable pub open_conf : (storage : Storage) → Option Json → Conf
open_conf storage (some v) =
    accept_document v (record { changed = false; is_ok = false; document = v; stored = some v })
open_conf storage none =
    reread (
      save storage (record { changed = true; is_ok = false; document = object end; stored = none }))

-- `replaceJSONdocument`.
unfoldable pub replace_document : Json → Conf → Conf
replace_document v c = record c { document = v; changed = true }

-- `toJSONobject().value(sTag)`.
unfoldable pub value_at : Text → Conf → Json
value_at tag c = value tag (to_object c.document)

-- `oJo.insert(sTag, ..)`, `setObject`, `bChanged = true` and `save`.
unfoldable pub insert_at : (storage : Storage) → Text → Json → Conf → Conf
insert_at storage tag v c =
    (save storage
      (record c { document = object (insert tag v (to_object c.document)); changed = true })).0

-- An `int` as a `quint16`.
unfoldable pub to_uint16 : ℤ → ℕ
to_uint16 (pos n) = n % 2 ^ 16
to_uint16 (negsuc n) = 2 ^ 16 - 1 - n % 2 ^ 16

unfoldable pub bool_eq : Bool → Bool → Bool
bool_eq true b = b
bool_eq false b = not b

-- The four kinds of settings, by tag and default: a flag, a text, a port and a list of texts.
-- The setters of the first three leave the object alone where the value does not change.
unfoldable pub flag : Text → Conf → Bool
flag tag c = to_bool false (value_at tag c)

unfoldable pub set_flag : Text → (storage : Storage) → Bool → Conf → Conf
set_flag tag storage b c = if bool_eq (flag tag c) b then c else insert_at storage tag (bool b) c

unfoldable pub text_at : Text → (default_text : Text) → Conf → Text
text_at tag default_text c = to_string default_text (value_at tag c)

unfoldable pub set_text : Text → (default_text : Text) → (storage : Storage) → Text → Conf → Conf
set_text tag default_text storage t c =
    if text_eq (text_at tag default_text c) t then c else insert_at storage tag (str t) c

unfoldable pub port_at : Text → (default_port : ℕ) → Conf → ℕ
port_at tag default_port c = to_uint16 (to_int (pos default_port) (value_at tag c))

unfoldable pub set_port : Text → (default_port : ℕ) → (storage : Storage) → ℕ → Conf → Conf
set_port tag default_port storage n c =
    if port_at tag default_port c == n then c else insert_at storage tag (number (pos n)) c

unfoldable pub texts_at : Text → Conf → List Text
texts_at tag c = map (to_string []) (to_array (value_at tag c))

unfoldable pub set_texts : Text → (storage : Storage) → List Text → Conf → Conf
set_texts tag storage ts c = insert_at storage tag (array (to_items (map str ts))) c
