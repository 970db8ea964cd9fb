-- ===== src/OpenApi.antt =====
-- packages/openapi-kit/src/joi-to-openapi.ts: the OpenAPI schema of what Joi's `describe` returns.
pub mod Pattern
pub mod Schemas
pub mod Properties
pub mod Paths
pub mod Setup
mod Tests
use payment_orchestration_pl.Prelude.{
  ℕ, String, Bool, true, false, ◌||◌, Option, none, some, List, [], ◌∷◌, ◌==◌, get_or, length, ltb,
  if◌then◌else◌,
}
use payment_orchestration_pl.Json.{
  Json, str, num, arr, obj, Items, nil, cons, Fields, end, field, ◌<+>◌, set_member_of,
}
use payment_orchestration_pl.OpenApi.Pattern.{strip_delimiters}

pub record Rule : Type 0 where
  pub name : String
  pub limit : Option ℕ
  pub regex : Option String

-- A missing `keys` or `items` is an empty one, which the code treats alike.
mutual
  pub data JoiDescription : Type 0 where
    description :
        (kind : String) (presence : Option String) (allow : Option (List Json))
        (rules : Option (List Rule)) (keys : Keys) (items : Descriptions)
        → JoiDescription

  pub data Keys : Type 0 where
    no_keys : Keys
    key : String → JoiDescription → Keys → Keys

  pub data Descriptions : Type 0 where
    no_items : Descriptions
    item : JoiDescription → Descriptions → Descriptions

abbrev pub presence_of : JoiDescription → Option String
presence_of (description kind presence allow rules keys items) = presence

abbrev pub is_text : String → Option String → Bool
is_text s none = false
is_text s (some t) = t == s

unfoldable pub is_required : JoiDescription → Bool
is_required d = is_text "required" (presence_of d)

-- `value !== ''`
abbrev pub is_empty_text : Json → Bool
is_empty_text (str s) = s == ""
is_empty_text _ = false

abbrev pub filter_values : List Json → List Json
filter_values [] = []
filter_values (v ∷ vs) = if is_empty_text v then filter_values vs else v ∷ filter_values vs

unfoldable pub get_valid_values : Option (List Json) → List Json
get_valid_values none = []
get_valid_values (some values) = filter_values values

abbrev pub find_rule : String → List Rule → Option Rule
find_rule name [] = none
find_rule name (r ∷ rs) = if r.name == name then some r else find_rule name rs

unfoldable pub get_rule : Option (List Rule) → String → Option Rule
get_rule none name = none
get_rule (some rules) name = find_rule name rules

abbrev pub some_rule : String → List Rule → Bool
some_rule name [] = false
some_rule name (r ∷ rs) = r.name == name || some_rule name rs

unfoldable pub has_rule : Option (List Rule) → String → Bool
has_rule none name = false
has_rule (some rules) name = some_rule name rules

abbrev pub limit_of : Option Rule → Option ℕ
limit_of none = none
limit_of (some r) = r.limit

abbrev pub regex_of : Option Rule → Option String
regex_of none = none
regex_of (some r) = r.regex

-- The source of the regular expression, where its text has the form `/source/flags`.
abbrev pub pattern_of : Option String → Option String
pattern_of none = none
pattern_of (some regex) = if regex == "" then none else some (get_or (strip_delimiters regex) regex)

unfoldable pub get_pattern : Option (List Rule) → Option String
unfolding get_rule
get_pattern rules = pattern_of (regex_of (get_rule rules "pattern"))

abbrev pub items_of : List Json → Items
items_of [] = nil
items_of (v ∷ vs) = cons v (items_of vs)

abbrev pub text_items : List String → Items
text_items [] = nil
text_items (s ∷ ss) = cons (str s) (text_items ss)

-- `...(values.length > 0 ? { enum: values } : {})`, and the like.
abbrev pub enum_field : List Json → Fields
enum_field [] = end
enum_field (v ∷ vs) = field "enum" (arr (items_of (v ∷ vs))) end

abbrev pub required_field : List String → Fields
required_field [] = end
required_field (k ∷ ks) = field "required" (arr (text_items (k ∷ ks))) end

abbrev pub number_field : String → Option ℕ → Fields
number_field name none = end
number_field name (some n) = field name (num n) end

abbrev pub text_field : String → Option String → Fields
text_field name none = end
text_field name (some s) = field name (str s) end

unfoldable pub required_keys : Keys → List String
unfolding is_required
required_keys no_keys = []
required_keys (key k child ks) =
    if is_required child then k ∷ required_keys ks else required_keys ks

-- What the last three branches make: numbers, booleans and all else, as texts.
unfoldable pub convert_leaf : (kind : String) → Option (List Json) → Option (List Rule) → Json
unfolding get_valid_values has_rule get_rule get_pattern
convert_leaf kind allow rules =
    let valid_values = get_valid_values allow in
    if kind == "number"
    then obj (
        field "type" (str (if has_rule rules "integer" then "integer" else "number"))
          (enum_field valid_values))
    else if kind == "boolean"
    then obj (field "type" (str "boolean") end)
    else obj (
        field "type" (str "string") (
          enum_field valid_values
          <+> (if has_rule rules "guid" || has_rule rules "uuid"
              then field "format" (str "uuid") end
              else end)
          <+> number_field "minLength" (limit_of (get_rule rules "min"))
          <+> number_field "maxLength" (limit_of (get_rule rules "max"))
          <+> text_field "pattern" (get_pattern rules)))

-- `convertObjectDescription`, for the properties that its loop makes.
unfoldable pub object_schema : (properties : Fields) (required : List String) → Json
object_schema properties required =
    obj
      (field "type" (str "object") (field "properties" (obj properties) (required_field required)))

unfoldable mutual
  unfolding convert_leaf object_schema required_keys

  pub convert_joi_description : JoiDescription → Json
  convert_joi_description (description kind presence allow rules keys items) =
      if kind == "object"
      then object_schema (convert_keys keys end) (required_keys keys)
      else if kind == "array"
      then obj (field "type" (str "array") (field "items" (convert_first items) end))
      else convert_leaf kind allow rules

  -- The loop over the keys, from the properties so far.
  pub convert_keys : Keys → Fields → Fields
  convert_keys no_keys properties = properties
  convert_keys (key k child ks) properties =
      convert_keys ks (set_member_of k (convert_joi_description child) properties)

  pub convert_first : Descriptions → Json
  convert_first no_items = obj end
  convert_first (item d ds) = convert_joi_description d
