-- ===== src/ZeroConf/Described.antt =====
-- What the descriptor of a configured service tells.
use qt_sss_shttps.Common.{
  ℕ, ◌<◌, ◌≡◌, ◌≢◌, ◌^◌, refl, ◌∙◌, sym, Bool, true, false, ◌&&◌, ◌||◌, not, ◌==◌, List, [], ◌∷◌,
  ◌++◌, arith, subst, none, pos, ℤ, negsuc,
}
use qt_sss_shttps.Text.{Text, codes, text_eq, is_empty}
use qt_sss_shttps.Text.Laws.{text_eq_iff, is_empty_iff, text_eq_self}
use qt_sss_shttps.Json.{
  Json, items-to_items, value, insert, to_bool, to_string, to_array, to_object, Fields, to_int,
}
use qt_sss_shttps.Conf.{to_uint16}
use qt_sss_shttps.Conf.Laws.{to_uint16-to_int}
use qt_sss_shttps.ZeroConf.{
  AppNames, Descriptor, new_descriptor, wanted_port, wanted_type, wanted_name, wanted_domain,
  port_and_type, full_service, domain_of, is_published, port_of, service_name_of, records_of,
  type_of, label_of, labelled, has_label, unless_given, all_records, text_record, host_of,
}

-- A descriptor is made of an entry exactly when the module has a name, and the entry a port that
-- is not 0 as a 16-bit number and a type.
abbrev pub is_wanted : Text → Fields → Bool
is_wanted uid fs =
    not (is_empty uid) && (not (wanted_port fs == 0) && not (is_empty (wanted_type fs)))

to_uint16-bounded : (z : ℤ) → to_uint16 z < 2 ^ 16
unfolding to_uint16
to_uint16-bounded (pos k) = omega arith
to_uint16-bounded (negsuc k) = omega arith

-- What the getters of the descriptor yield.
pub record IsDescribed (n : AppNames) (uid : Text) (fs : Fields) (d : Descriptor) : Type 0 where
  pub port : port_of d ≡ wanted_port fs
  pub port_used : port_of d ≢ 0
  pub service_type : type_of d ≡ wanted_type fs
  pub name : service_name_of d ≡ wanted_name n uid fs
  pub domain : domain_of d ≡ wanted_domain fs
  pub published : is_published d ≡ to_bool false (value (codes "bPublish") fs)
  pub records : records_of d ≡ all_records n uid (to_array (value (codes "aTextRecords") fs))
  pub host : host_of d ≡ []

module _ (n : AppNames) (uid : Text) (fs : Fields) where
  -- An entry of the configuration makes a descriptor that is not null exactly when the module has
  -- a name, and the entry has a port that is not 0 as a 16-bit number and a type.
  new_descriptor-is_fine : (new_descriptor n uid fs).is_fine ≡ is_wanted uid fs
  unfolding new_descriptor
  new_descriptor-is_fine = ground arith

  -- The descriptor where the entry is wanted.
  abbrev full_descriptor : Descriptor
  full_descriptor = record {
    is_browser_info = false;
    is_fine = true;
    service = full_service n uid fs;
    announced = none;
    owner = uid;
  }

  new_descriptor-full : is_wanted uid fs ≡ true → new_descriptor n uid fs ≡ full_descriptor
  unfolding new_descriptor
  new_descriptor-full e = ground (arith, e)

  full_descriptor-port : port_of full_descriptor ≡ wanted_port fs
  unfolding port_of full_service port_and_type insert value text_eq
  full_descriptor-port =
      to_uint16-to_int 0 (wanted_port fs)
        (to_uint16-bounded (to_int (pos 0) (value (codes "uiPort") fs)))

  full_descriptor-IsDescribed : wanted_port fs ≢ 0 → IsDescribed n uid fs full_descriptor
  unfolding type_of service_name_of domain_of is_published records_of host_of full_service
      port_and_type insert value text_eq to_string to_bool to_array
  full_descriptor-IsDescribed h = record {
    port = full_descriptor-port;
    port_used = λ e. h (sym full_descriptor-port ∙ e);
    service_type = refl;
    name = refl;
    domain = refl;
    published = refl;
    records = items-to_items (all_records n uid (to_array (value (codes "aTextRecords") fs)));
    host = refl;
  }

  port_wanted : is_wanted uid fs ≡ true → wanted_port fs ≢ 0
  port_wanted e = ground (arith, e)

  -- The getters of a descriptor that is made of an entry and not null yield the values of the
  -- entry, or the default for the name and the domain, and its port is not 0.
  pub new_descriptor-IsDescribed :
      (new_descriptor n uid fs).is_fine ≡ true → IsDescribed n uid fs (new_descriptor n uid fs)
  new_descriptor-IsDescribed e =
      let w = sym new_descriptor-is_fine ∙ e in
      subst (IsDescribed n uid fs) (sym (new_descriptor-full w))
        (full_descriptor-IsDescribed (port_wanted w))

label_of-text_record : (label content : Text) → label_of (text_record label content) ≡ label
unfolding text_record insert value text_eq to_string to_object
label_of-text_record label content = refl

has_label-append :
    (name : Text) (vs ws : List Json)
    → has_label name (vs ++ ws) ≡ (has_label name vs || has_label name ws)
unfolding has_label
has_label-append name [] ws = refl
has_label-append name (v ∷ vs) ws = ground (arith, has_label-append name vs ws)

has_label-labelled :
    (c : ℕ) (name : Text) (vs : List Json)
    → has_label (c ∷ name) (labelled vs) ≡ has_label (c ∷ name) vs
unfolding has_label labelled
has_label-labelled c name [] = refl
has_label-labelled c name (v ∷ vs) = ground (
  arith,
  has_label-labelled c name vs,
  is_empty_iff (label_of v),
  text_eq_iff (label_of v) (c ∷ name),
  label_of-text_record (label_of v) (to_string [] (value (codes "sValue") (to_object v))),
)

has_label-unless_given :
    (name content : Text) (vs : List Json)
    → (has_label name vs || has_label name (unless_given name content vs)) ≡ true
unfolding unless_given has_label
has_label-unless_given name content vs =
    ground (arith, label_of-text_record name content, text_eq_self name)

all_records-has_label :
    (n : AppNames) (uid name : Text) (vs : List Json)
    → has_label name (all_records n uid vs) ≡ (
        has_label name (labelled vs)
        || (text_eq (codes "moduleUID") name
            || (has_label name (unless_given (codes "appNameFull") n.full_name vs)
                || has_label name (unless_given (codes "version") n.version vs))))
unfolding all_records has_label
all_records-has_label n uid name vs = ground (
  arith,
  label_of-text_record (codes "moduleUID") uid,
  has_label-append name (labelled vs) (
      text_record (codes "moduleUID") uid
      ∷ (unless_given (codes "appNameFull") n.full_name vs
          ++ unless_given (codes "version") n.version vs)),
  has_label-append name (unless_given (codes "appNameFull") n.full_name vs)
      (unless_given (codes "version") n.version vs),
)

-- The text records that are announced name the module, the application and its version, whatever
-- records the configuration gives.
all_records-labels :
    (n : AppNames) (uid : Text) (vs : List Json)
    → (has_label (codes "moduleUID") (all_records n uid vs) ≡ true)
      × (has_label (codes "appNameFull") (all_records n uid vs) ≡ true)
      × (has_label (codes "version") (all_records n uid vs) ≡ true)
unfolding text_eq
all_records-labels n uid vs = (
  all_records-has_label n uid (codes "moduleUID") vs ∙ ground arith,
  all_records-has_label n uid (codes "appNameFull") vs
      ∙ ground (
        arith,
        has_label-labelled b'a' (codes "ppNameFull") vs,
        has_label-unless_given (codes "appNameFull") n.full_name vs,
      ),
  all_records-has_label n uid (codes "version") vs
      ∙ ground (
        arith,
        has_label-labelled b'v' (codes "ersion") vs,
        has_label-unless_given (codes "version") n.version vs,
      ),
)
