-- ===== src/Conf/Laws.antt =====
-- What a setter of ModuleConf changes.
use qt_sss_shttps.Common.{
  ℕ, ◌<◌, ◌^◌, ◌≡◌, ◌≢◌, refl, ap, ◌∙◌, sym, subst, ◌&&◌, Bool, true, false, Option, none, some,
  arith, List, [], ◌∷◌, map, if◌then◌else◌, pos, ==_iff, ◌==◌,
}
use qt_sss_shttps.Text.{Text, text_eq}
use qt_sss_shttps.Text.Laws.{text_eq_iff}
use qt_sss_shttps.Json.{
  Json, Fields, end, object, bool, array, to_items, insert, value, str, number, items-to_items,
  to_string, to_array, to_object, to_bool, to_int, value-insert,
}
use qt_sss_shttps.Conf.{
  Storage, Conf, save, value_at, insert_at, flag, set_flag, text_at, set_text, port_at, set_port,
  texts_at, set_texts, to_uint16, bool_eq, is_object, open_conf, accept_document, reread,
}

-- What is not marked as changed is in the file.
abbrev pub IsStored : Conf → Type 0
IsStored c = c.changed ≡ false → c.stored ≡ some c.document

value_at-insert_at :
    (storage : Storage) (tag other : Text) (v : Json) (c : Conf)
    → value_at other (insert_at storage tag v c)
      ≡ (if text_eq tag other then v else value_at other c)
unfolding value_at insert_at save to_object
value_at-insert_at storage tag other v c =
    ground (arith, value-insert tag other v (to_object c.document))

-- What was written is read back: the write goes through, and `fromJson` undoes `toJson`.
abbrev pub IsReliable : Storage → Type 0
IsReliable storage = (fs : Fields) → storage.rereads (object fs) ≡ object fs

pub insert_at-IsStored :
    (storage : Storage) (tag : Text) (v : Json) (c : Conf)
    → IsReliable storage
    → IsStored (insert_at storage tag v c)
unfolding insert_at save
insert_at-IsStored storage tag v c h =
    λ e. ground (arith, e, h (insert tag v (to_object c.document)))

-- What a setter does to the object: the new value is read back, and the other tags keep theirs.
pub record IsUpdated (A : Type 0) (get : Conf → A) (tag : Text) (v : A) (c d : Conf) : Type 0 where
  pub read_back : get d ≡ v
  pub others_kept : (other : Text) → other ≢ tag → value_at other d ≡ value_at other c

-- What a setter promises, with the file: what the object does not mark as changed is in the file.
pub record IsAssigned (A : Type 0) (get : Conf → A) (tag : Text) (v : A) (c d : Conf) : Type 0 where
  pub is_updated : IsUpdated A get tag v c d
  pub stays_stored : IsStored c → IsStored d

insert_at-other :
    (storage : Storage) (tag other : Text) (v : Json) (c : Conf)
    → other ≢ tag
    → value_at other (insert_at storage tag v c) ≡ value_at other c
insert_at-other storage tag other v c n =
    ground (arith, value_at-insert_at storage tag other v c, text_eq_iff tag other)

insert_at-same :
    (storage : Storage) (tag : Text) (v : Json) (c : Conf)
    → value_at tag (insert_at storage tag v c) ≡ v
insert_at-same storage tag v c =
    ground (arith, value_at-insert_at storage tag tag v c, text_eq_iff tag tag)

module _ {A : Type 0} (get : Conf → A) (tag : Text) where
  -- A setter that does nothing where the value is there already.
  guarded-IsUpdated :
      (same : Bool) (storage : Storage) (j : Json) (v : A) (c : Conf)
      → (same ≡ true → get c ≡ v)
      → ((d : Conf) → value_at tag d ≡ j → get d ≡ v)
      → IsUpdated A get tag v c (if same then c else insert_at storage tag j c)
  guarded-IsUpdated true storage j v c h g = record {
    read_back = h refl;
    others_kept = λ other. λ n. refl;
  }
  guarded-IsUpdated false storage j v c h g = record {
    read_back = g (insert_at storage tag j c) (insert_at-same storage tag j c);
    others_kept = λ other. insert_at-other storage tag other j c;
  }

guarded-IsStored :
    (same : Bool) (storage : Storage) (tag : Text) (j : Json) (c : Conf)
    → IsReliable storage
    → IsStored c
    → IsStored (if same then c else insert_at storage tag j c)
guarded-IsStored true storage tag j c h k = k
guarded-IsStored false storage tag j c h k = insert_at-IsStored storage tag j c h

bool_eq_iff : (a b : Bool) → bool_eq a b ≡ true → a ≡ b
unfolding bool_eq
bool_eq_iff a b e = ground arith

-- A flag that was set is read back, and all other tags keep their values.
pub set_flag-IsUpdated :
    (tag : Text) (storage : Storage) (b : Bool) (c : Conf)
    → IsUpdated Bool (flag tag) tag b c (set_flag tag storage b c)
unfolding set_flag flag to_bool
set_flag-IsUpdated tag storage b c =
    guarded-IsUpdated (flag tag) tag (bool_eq (flag tag c) b) storage _ b c
      (bool_eq_iff (flag tag c) b) (λ d. λ e. ap (to_bool false) e)

-- A text setting that was set is read back, and all other tags keep their values.
pub set_text-IsUpdated :
    (tag default_text : Text) (storage : Storage) (t : Text) (c : Conf)
    → IsUpdated Text (text_at tag default_text) tag t c (set_text tag default_text storage t c)
unfolding set_text text_at to_string
set_text-IsUpdated tag default_text storage t c =
    guarded-IsUpdated (text_at tag default_text) tag (text_eq (text_at tag default_text c) t)
      storage _ t c (text_eq_iff (text_at tag default_text c) t).0
      (λ d. λ e. ap (to_string default_text) e)

pub to_uint16-to_int : (d n : ℕ) → n < 2 ^ 16 → to_uint16 (to_int (pos d) (number (pos n))) ≡ n
unfolding to_uint16 to_int
to_uint16-to_int d n h = ground arith

-- A port or a number of connections below 2^16 that was set is read back through the 16-bit
-- getter, and all other tags keep their values.
pub set_port-IsUpdated :
    (tag : Text) (default_port : ℕ) (storage : Storage) (n : ℕ) (c : Conf)
    → n < 2 ^ 16
    → IsUpdated ℕ (port_at tag default_port) tag n c (set_port tag default_port storage n c)
unfolding set_port port_at
set_port-IsUpdated tag default_port storage n c h =
    guarded-IsUpdated (port_at tag default_port) tag (port_at tag default_port c == n) storage _ n c
      (==_iff (port_at tag default_port c) n).0
      (λ d. λ e.
        ap (λ v. to_uint16 (to_int (pos default_port) v)) e ∙ to_uint16-to_int default_port n h)

map-to_string : (ts : List Text) → map (to_string []) (map str ts) ≡ ts
unfolding to_string
map-to_string [] = refl
map-to_string (t ∷ ts) = ap (λ us. t ∷ us) (map-to_string ts)

-- A list of texts that was set is read back, and all other tags keep their values.
pub set_texts-IsUpdated :
    (tag : Text) (storage : Storage) (ts : List Text) (c : Conf)
    → IsUpdated (List Text) (texts_at tag) tag ts c (set_texts tag storage ts c)
unfolding set_texts texts_at to_array
set_texts-IsUpdated tag storage ts c =
    guarded-IsUpdated (texts_at tag) tag false storage _ ts c (λ e. absurd (cc))
      (λ d. λ e.
        ap (λ v. map (to_string []) (to_array v)) e
        ∙ ap (map (to_string [])) (items-to_items (map str ts))
        ∙ map-to_string ts)

-- When the constructor leaves a usable object: the file holds a JSON object, or there is none and
-- what is read back after an empty one was written is an object.
abbrev pub usable : Storage → Option Json → Bool
usable storage none = storage.opens && is_object (storage.rereads (object end))
usable storage (some v) = is_object v

-- The constructor of the persistent object leaves a usable object exactly where the file holds a
-- JSON object, or where there is no file, one can be opened, and what is read back of the empty
-- object that is written is an object.
open_conf-is_ok :
    (storage : Storage) (file : Option Json) → (open_conf storage file).is_ok ≡ usable storage file
unfolding open_conf accept_document reread save is_object
open_conf-is_ok storage none = ground arith
open_conf-is_ok storage (some v) = refl

-- The object that is constructed of a file that holds those entries.
abbrev IsReopened : Fields → Conf → Type 0
IsReopened fs c =
    (c.is_ok ≡ true) × (c.changed ≡ false) × ((other : Text) → value_at other c ≡ value other fs)

open_conf-IsReopened :
    (storage : Storage) (fs : Fields) (file : Option Json)
    → file ≡ some (object fs)
    → IsReopened fs (open_conf storage file)
unfolding open_conf accept_document is_object value_at to_object
open_conf-IsReopened storage fs file e =
    subst (λ o. IsReopened fs (open_conf storage o)) (sym e) (refl, refl, λ other. refl)

insert_at-stored :
    (storage : Storage) (tag : Text) (v : Json) (c : Conf)
    → IsReliable storage
    → storage.opens ≡ true
    → (insert_at storage tag v c).stored ≡ some (object (insert tag v (to_object c.document)))
unfolding insert_at save
insert_at-stored storage tag v c h o = ground (arith, o, h (insert tag v (to_object c.document)))

-- Where the file can be opened for writing, and an object that is written is read back: after a
-- value was inserted and saved, an object that is constructed from the file is usable and
-- unchanged, has the value under its tag and the former values under all other tags.
pub open_conf-insert_at :
    (storage : Storage) (tag : Text) (v : Json) (c : Conf)
    → IsReliable storage
    → storage.opens ≡ true
    → let again = open_conf storage (insert_at storage tag v c).stored in
      (again.is_ok ≡ true)
      × (again.changed ≡ false)
      × ((other : Text)
          → value_at other again ≡ (if text_eq tag other then v else value_at other c))
unfolding value_at
open_conf-insert_at storage tag v c h o =
    let (ok, same, values) =
      open_conf-IsReopened storage (insert tag v (to_object c.document)) _
        (insert_at-stored storage tag v c h o) in
    (ok, same, λ other. values other ∙ value-insert tag other v (to_object c.document))

-- Where an object that is written is read back, whether the file can be opened for writing or
-- not: a flag, a text, a port below 2^16 and a list of texts that were set are read back under
-- their tag, all other tags keep their values, and an object that was in the file or marked as
-- changed remains so.
pub setters-AreAssigned :
    (tag default_text : Text) (default_port : ℕ) (storage : Storage) (b : Bool) (t : Text) (n : ℕ)
    (ts : List Text) (c : Conf)
    → IsReliable storage
    → n < 2 ^ 16
    → IsAssigned Bool (flag tag) tag b c (set_flag tag storage b c)
      × IsAssigned Text (text_at tag default_text) tag t c (set_text tag default_text storage t c)
      × IsAssigned ℕ (port_at tag default_port) tag n c (set_port tag default_port storage n c)
      × IsAssigned (List Text) (texts_at tag) tag ts c (set_texts tag storage ts c)
unfolding set_flag set_text set_port set_texts
setters-AreAssigned tag default_text default_port storage b t n ts c reliable h = (
  record {
    is_updated = set_flag-IsUpdated tag storage b c;
    stays_stored = guarded-IsStored (bool_eq (flag tag c) b) storage tag (bool b) c reliable;
  },
  record {
    is_updated = set_text-IsUpdated tag default_text storage t c;
    stays_stored =
        guarded-IsStored (text_eq (text_at tag default_text c) t) storage tag (str t) c reliable;
  },
  record {
    is_updated = set_port-IsUpdated tag default_port storage n c h;
    stays_stored =
        guarded-IsStored (port_at tag default_port c == n) storage tag (number (pos n)) c reliable;
  },
  record {
    is_updated = set_texts-IsUpdated tag storage ts c;
    stays_stored = guarded-IsStored false storage tag (array (to_items (map str ts))) c reliable;
  },
)
