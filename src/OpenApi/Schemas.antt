-- ===== src/OpenApi/Schemas.antt =====
-- What packages/openapi-kit/src/joi-to-openapi.ts makes is an OpenAPI schema.
use payment_orchestration_pl.Prelude.{
  ℕ, String, ◌≡◌, ◌⊎◌, inl, inr, refl, Bool, true, ◌||◌, Option, none, some, List, [], ◌∷◌, ◌==◌,
  is_some, arith, eq_refl, Bool-cases, if◌then◌else◌,
}
use payment_orchestration_pl.Json.{
  Json, str, arr, obj, Items, nil, cons, Fields, end, field, ◌<+>◌, member_of, set_member_of,
}
use payment_orchestration_pl.OpenApi.{
  JoiDescription, description, Rule, Keys, no_keys, key, Descriptions, no_items, item, is_required,
  get_valid_values, has_rule, text_items, enum_field, required_field, number_field, text_field,
  required_keys, convert_leaf, convert_joi_description, convert_keys, convert_first,
}

-- A list of values, where it is given, is not empty.
abbrev pub IsFilled : Option Json → Type 0
IsFilled (some (arr nil)) = ⊥
IsFilled (some (arr (cons v vs))) = Unit
IsFilled (some _) = ⊥
IsFilled none = Unit

-- The names in `required` are names of properties.
abbrev pub AreNames : Items → Fields → Type 0
AreNames nil properties = Unit
AreNames (cons (str s) vs) properties =
    (is_some (member_of s properties) ≡ true) × AreNames vs properties
AreNames (cons _ vs) properties = ⊥

abbrev pub NamesIn : Option Json → Fields → Type 0
NamesIn none properties = Unit
NamesIn (some (arr (cons v vs))) properties = AreNames (cons v vs) properties
NamesIn (some _) properties = ⊥

-- What OpenAPI asks of a schema of each type that occurs.
mutual
  pub data IsSchema : Json → Type 0 where
    object :
        (fs properties : Fields)
        → member_of "type" fs ≡ some (str "object")
        → member_of "properties" fs ≡ some (obj properties)
        → AreSchemas properties
        → NamesIn (member_of "required" fs) properties
        → IsSchema (obj fs)
    array :
        (fs : Fields) (items : Json)
        → member_of "type" fs ≡ some (str "array")
        → member_of "items" fs ≡ some items
        → IsItemSchema items
        → IsSchema (obj fs)
    number :
        (fs : Fields)
        → (member_of "type" fs ≡ some (str "integer")) ⊎ (member_of "type" fs ≡ some (str "number"))
        → IsFilled (member_of "enum" fs)
        → IsSchema (obj fs)
    boolean : (fs : Fields) → member_of "type" fs ≡ some (str "boolean") → IsSchema (obj fs)
    text :
        (fs : Fields)
        → member_of "type" fs ≡ some (str "string")
        → IsFilled (member_of "enum" fs)
        → IsSchema (obj fs)

  -- The empty schema admits all items.
  pub data IsItemSchema : Json → Type 0 where
    any_item : IsItemSchema (obj end)
    items_like : (schema : Json) → IsSchema schema → IsItemSchema schema

  pub data AreSchemas : Fields → Type 0 where
    no_fields : AreSchemas end
    and_schema :
        (name : String) (schema : Json) (fs : Fields)
        → IsSchema schema
        → AreSchemas fs
        → AreSchemas (field name schema fs)

AreSchemas-set :
    (name : String) (v : Json) (fs : Fields)
    → IsSchema v
    → AreSchemas fs
    → AreSchemas (set_member_of name v fs)
AreSchemas-set name v end h no_fields = and_schema name v end h no_fields
AreSchemas-set name v (field k w fs) h (and_schema _ _ _ hw hs) = elim (Bool-cases (k == name)) [
  | inl e ↦ rw e (and_schema k v fs h hs)
  | inr e ↦ rw e (and_schema k w _ hw (AreSchemas-set name v fs h hs))
]

enum-IsFilled : (vs : List Json) → IsFilled (member_of "enum" (enum_field vs))
enum-IsFilled [] = tt
enum-IsFilled (v ∷ vs) = tt

-- The members of a text's schema behind its `enum`.
abbrev text_members : Bool → Option ℕ → Option ℕ → Option String → Fields
text_members is_uuid min max pattern =
    (if is_uuid then field "format" (str "uuid") end else end)
    <+> number_field "minLength" min
    <+> number_field "maxLength" max
    <+> text_field "pattern" pattern

no-enum :
    (is_uuid : Bool) (min max : Option ℕ) (pattern : Option String)
    → member_of "enum" (text_members is_uuid min max pattern) ≡ none
no-enum is_uuid min max pattern = ground arith

text-IsFilled :
    (vs : List Json) (fs : Fields)
    → member_of "enum" fs ≡ none
    → IsFilled (member_of "enum" (enum_field vs <+> fs))
text-IsFilled [] fs h = rw h tt
text-IsFilled (v ∷ vs) fs h = tt

type_of_number : Bool → String
type_of_number b = if b then "integer" else "number"

convert_leaf-IsSchema :
    (kind : String) (allow : Option (List Json)) (rules : Option (List Rule))
    → IsSchema (convert_leaf kind allow rules)
unfolding convert_leaf
convert_leaf-IsSchema kind allow rules = elim (Bool-cases (kind == "number")) [
  | inl e ↦ rw e (number _ (ground arith) (enum-IsFilled (get_valid_values allow)))
  | inr e ↦ elim (Bool-cases (kind == "boolean")) [
    | inl e' ↦ rw (e, e') (boolean _ refl)
    | inr e' ↦
        rw (e, e')
          (text _ refl (
            text-IsFilled (get_valid_values allow) (text_members _ _ _ _)
              (no-enum (has_rule rules "guid" || has_rule rules "uuid") _ _ _)))
  ]
]

has-set_member :
    (name k : String) (v : Json) (fs : Fields)
    → is_some (member_of name fs) ≡ true
    → is_some (member_of name (set_member_of k v fs)) ≡ true
has-set_member name k v end h = absurd (ground arith)
has-set_member name k v (field j w fs) h = ground (arith, has-set_member name k v fs)

has-set_member_self :
    (k : String) (v : Json) (fs : Fields) → is_some (member_of k (set_member_of k v fs)) ≡ true
has-set_member_self k v end = ground (arith, eq_refl k)
has-set_member_self k v (field j w fs) = ground (arith, eq_refl k, has-set_member_self k v fs)

has-convert_keys :
    (name : String) (ks : Keys) (fs : Fields)
    → is_some (member_of name fs) ≡ true
    → is_some (member_of name (convert_keys ks fs)) ≡ true
unfolding convert_joi_description
has-convert_keys name no_keys fs h = h
has-convert_keys name (key k child ks) fs h =
    has-convert_keys name ks _ (has-set_member name k (convert_joi_description child) fs h)

-- The names are texts of an array.
required-AreNames :
    (ks : Keys) (fs : Fields) → AreNames (text_items (required_keys ks)) (convert_keys ks fs)
unfolding required_keys convert_joi_description
required-AreNames no_keys fs = tt
required-AreNames (key k child ks) fs =
    let later = required-AreNames ks (set_member_of k (convert_joi_description child) fs) in
    elim (Bool-cases (is_required child)) [
      | inl e ↦ rw e (
        has-convert_keys k ks _ (has-set_member_self k (convert_joi_description child) fs),
        later,
      )
      | inr e ↦ rw e later
    ]

required-NamesIn :
    (names : List String) (properties : Fields)
    → AreNames (text_items names) properties
    → NamesIn (member_of "required" (required_field names)) properties
required-NamesIn [] properties h = tt
required-NamesIn (n ∷ ns) properties h = h

mutual
  unfolding convert_joi_description

  convert-IsSchema : (d : JoiDescription) → IsSchema (convert_joi_description d)
  convert-IsSchema (description kind presence allow rules keys items) =
      elim (Bool-cases (kind == "object")) [
        | inl e ↦ rw e (
            object _ (convert_keys keys end) refl refl (convert_keys-AreSchemas keys end no_fields)
              (required-NamesIn (required_keys keys) _ (required-AreNames keys end)))
        | inr e ↦ elim (Bool-cases (kind == "array")) [
          | inl e' ↦
              rw (e, e')
                (array _ (convert_first items) refl refl (convert_first-IsItemSchema items))
          | inr e' ↦ rw (e, e') (convert_leaf-IsSchema kind allow rules)
        ]
      ]

  convert_keys-AreSchemas :
      (ks : Keys) (fs : Fields) → AreSchemas fs → AreSchemas (convert_keys ks fs)
  convert_keys-AreSchemas no_keys fs h = h
  convert_keys-AreSchemas (key k child ks) fs h =
      convert_keys-AreSchemas ks _
        (AreSchemas-set k (convert_joi_description child) fs (convert-IsSchema child) h)

  convert_first-IsItemSchema : (ds : Descriptions) → IsItemSchema (convert_first ds)
  convert_first-IsItemSchema no_items = any_item
  convert_first-IsItemSchema (item d ds) = items_like _ (convert-IsSchema d)

-- Every description is converted to a schema: at any depth its type is one of OpenAPI's, an
-- object's required names are names of its properties, which are schemas, an array has a schema of
-- its items or the empty one, and an enumeration or a list of required names is not empty.
pub convert_joi_description-IsSchema : (d : JoiDescription) → IsSchema (convert_joi_description d)
convert_joi_description-IsSchema d = convert-IsSchema d
