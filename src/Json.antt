-- ===== src/Json.antt =====
-- JSON values as the framework's `QJsonValue` and `QJsonObject` hold them, with the accessors that
-- the program calls. A number that is no whole number is kept by its text.
use qt_sss_shttps.Common.{
  ◌^◌, ◌≡◌, refl, Bool, List, [], ◌∷◌, arith, leb, if◌then◌else◌, ℤ, pos, negsuc,
}
use qt_sss_shttps.Text.{Text, text_eq}
use qt_sss_shttps.Text.Laws.{text_eq_iff}

mutual
  pub data Json : Type 0 where
    undefined null : Json
    bool : Bool → Json
    number : ℤ → Json
    fraction : Text → Json
    str : Text → Json
    array : Items → Json
    object : Fields → Json

  pub data Items : Type 0 where
    nil : Items
    cons : Json → Items → Items

  pub data Fields : Type 0 where
    end : Fields
    field : Text → Json → Fields → Fields

-- `QJsonArray` as a list, and back.
unfoldable pub items : Items → List Json
items nil = []
items (cons v vs) = v ∷ items vs

unfoldable pub to_items : List Json → Items
to_items [] = nil
to_items (v ∷ vs) = cons v (to_items vs)

pub items-to_items : (vs : List Json) → items (to_items vs) ≡ vs
unfolding items to_items
items-to_items [] = refl
items-to_items (v ∷ vs) = λ i. v ∷ items-to_items vs i

-- `QJsonObject::value`: a missing key is undefined.
unfoldable pub value : Text → Fields → Json
value key end = undefined
value key (field k v fs) = if text_eq k key then v else value key fs

-- `QJsonObject::insert`.
unfoldable pub insert : Text → Json → Fields → Fields
insert key v end = field key v end
insert key v (field k w fs) = if text_eq k key then field key v fs else field k w (insert key v fs)

unfoldable pub to_bool : Bool → Json → Bool
to_bool d (bool b) = b
to_bool d _ = d

unfoldable pub to_string : Text → Json → Text
to_string d (str s) = s
to_string d _ = d

unfoldable pub to_array : Json → List Json
unfolding items
to_array (array vs) = items vs
to_array _ = []

unfoldable pub to_object : Json → Fields
to_object (object fs) = fs
to_object _ = end

-- `toInt`: the default for all but a whole number that an `int` can hold.
unfoldable pub to_int : ℤ → Json → ℤ
to_int d (number (pos n)) = if leb (2 ^ 31) n then d else pos n
to_int d (number (negsuc n)) = if leb (2 ^ 31) n then d else negsuc n
to_int d _ = d

pub value-insert :
    (key other : Text) (v : Json) (fs : Fields)
    → value other (insert key v fs) ≡ (if text_eq key other then v else value other fs)
unfolding value insert
value-insert key other v end = refl
value-insert key other v (field k w fs) = ground (
  arith,
  text_eq_iff key other,
  text_eq_iff k key,
  text_eq_iff k other,
  value-insert key other v fs,
)
