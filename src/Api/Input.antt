-- ===== src/Api/Input.antt =====
-- The request input and the surfaces of internal/api/server.go: a JSON object or a form, and which
-- of JSON and HTML is asked for. The decoders of both are not part of the model.
use openpreflight.Prelude.{
  ℕ, Bool, true, false, not, ◌||◌, List, [], ◌∷◌, Option, none, some, ℤ, is_positive, pos_part,
  if◌then◌else◌, is_nil,
}
use openpreflight.Go.Strings.{Text, codes, str_eq, trim_space, has_prefix, contains, equal_fold}
use openpreflight.Go.Decimal.{atoi}

-- A decoded value. A number is the text of FormatFloat and whether it is zero; of an array the texts
-- matter, and `none` is an element of another type.
pub data JsonValue : Type 0 where
  text : Text → JsonValue
  number : Text → Bool → JsonValue
  boolean : Bool → JsonValue
  array : List (Option Text) → JsonValue
  other : JsonValue

pub data Input : Type 0 where
  form : List (Text × List Text) → Input
  json : List (Text × JsonValue) → Input

abbrev pub is_json : Input → Bool
is_json (form values) = false
is_json (json object) = true

module _ {ℓ} {V : Type ℓ} where
  abbrev pub lookup_key : Text → List (Text × V) → Option V
  lookup_key key [] = none
  lookup_key key ((k, v) ∷ rest) = if str_eq k key then some v else lookup_key key rest

-- url.Values.Get.
abbrev first_value : Option (List Text) → Text
first_value none = []
first_value (some []) = []
first_value (some (v ∷ vs)) = v

abbrev value_text : Option JsonValue → Text
value_text (some (text t)) = trim_space t
value_text (some (number t is_zero)) = t
value_text (some (boolean true)) = codes "true"
value_text (some (boolean false)) = codes "false"
value_text (some (array items)) = []
value_text (some other) = []
value_text none = []

-- `Str`.
unfoldable pub str : Text → Input → Text
str key (form values) = trim_space (first_value (lookup_key key values))
str key (json object) = value_text (lookup_key key object)

abbrev is_given {ℓ} : {A : Type ℓ} → Option A → Bool
is_given none = false
is_given (some x) = true

-- `Has`.
unfoldable pub has : Text → Input → Bool
has key (form values) = is_given (lookup_key key values)
has key (json object) = is_given (lookup_key key object)

abbrev trimmed_texts : List (Option Text) → List Text
trimmed_texts [] = []
trimmed_texts (none ∷ items) = trimmed_texts items
trimmed_texts (some t ∷ items) =
    if is_nil (trim_space t) then trimmed_texts items else trim_space t ∷ trimmed_texts items

abbrev values_of : Option (List Text) → List Text
values_of none = []
values_of (some vs) = vs

abbrev value_list : Option JsonValue → List Text
value_list (some (array items)) = trimmed_texts items
value_list (some (text t)) = if is_nil t then [] else t ∷ []
value_list (some (number t is_zero)) = []
value_list (some (boolean b)) = []
value_list (some other) = []
value_list none = []

-- `StrList`.
unfoldable pub str_list : Text → Input → List Text
str_list key (form values) = values_of (lookup_key key values)
str_list key (json object) = value_list (lookup_key key object)

abbrev or_else : ℤ → Option ℤ → ℤ
or_else def none = def
or_else def (some n) = n

-- `Int` and `Int64`.
unfoldable pub int : Text → ℤ → Input → ℤ
unfolding str
int key def inp = if is_nil (str key inp) then def else or_else def (atoi (str key inp))

abbrev is_on : Text → Bool
is_on t = str_eq t (codes "1") || (equal_fold t (codes "true") || equal_fold t (codes "on"))

abbrev value_bool : Option JsonValue → Bool
value_bool (some (boolean b)) = b
value_bool (some (text t)) = is_on t
value_bool (some (number t is_zero)) = not is_zero
value_bool (some (array items)) = false
value_bool (some other) = false
value_bool none = false

-- `Bool`.
unfoldable pub bool : Text → Input → Bool
bool key (form values) = is_on (first_value (lookup_key key values))
bool key (json object) = value_bool (lookup_key key object)

abbrev positive_id : Option ℤ → Option ℕ
positive_id none = none
positive_id (some n) = if is_positive n then some (pos_part n) else none

-- `pathID`; `none` is its error.
unfoldable pub path_id : Text → Option ℕ
path_id v = positive_id (atoi v)

-- `wantsJSON`, of the headers Content-Type and Accept.
unfoldable pub wants_json : Text → Text → Bool
wants_json content_type accept =
    if has_prefix content_type (codes "application/json")
      || contains accept (codes "application/json")
    then true
    else if contains accept (codes "text/html")
    then false
    else is_nil content_type
