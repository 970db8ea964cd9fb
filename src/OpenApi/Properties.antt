-- ===== src/OpenApi/Properties.antt =====
-- The members of an object's schema, packages/openapi-kit/src/joi-to-openapi.ts.
use payment_orchestration_pl.Prelude.{
  String, ◌≡◌, refl, ◌∙◌, Bool, false, ◌||◌, Option, none, some, List, [], ◌∷◌, ◌==◌, map_option,
  arith, eq_iff, if◌then◌else◌,
}
use payment_orchestration_pl.Json.{
  Json, str, arr, obj, Items, nil, cons, Fields, end, field, member, member_of, set_member_of,
}
use payment_orchestration_pl.OpenApi.{
  JoiDescription, description, Rule, Keys, no_keys, key, Descriptions, is_required, text_items,
  required_keys, object_schema, convert_joi_description, convert_keys,
}

abbrev pub key_of : String → Keys → Option JoiDescription
key_of name no_keys = none
key_of name (key k child ks) = if k == name then some child else key_of name ks

-- As the keys of a JavaScript object are.
abbrev pub AreDistinct : Keys → Type 0
AreDistinct no_keys = Unit
AreDistinct (key k child ks) = (key_of k ks ≡ none) × AreDistinct ks

abbrev pub has_item : String → Items → Bool
has_item name nil = false
has_item name (cons (str s) vs) = s == name || has_item name vs
has_item name (cons _ vs) = has_item name vs

-- Whether a schema requires a member.
abbrev pub requires : String → Json → Bool
requires name schema = elim (member "required" schema) [
  | some (arr vs) ↦ has_item name vs
  | some _ ↦ false
  | none ↦ false
]

abbrev pub is_required_key : Option JoiDescription → Bool
is_required_key none = false
is_required_key (some child) = is_required child

abbrev or_else : Option Json → Option Json → Option Json
or_else none o = o
or_else (some v) o = some v

pub member-set_member_of :
    (name k : String) (v : Json) (fs : Fields)
    → member_of name (set_member_of k v fs) ≡ (if k == name then some v else member_of name fs)
member-set_member_of name k v end = refl
member-set_member_of name k v (field j w fs) =
    ground (arith, eq_iff k name, eq_iff j k, eq_iff j name, member-set_member_of name k v fs)

member-convert_keys :
    (name : String) (ks : Keys) (fs : Fields)
    → AreDistinct ks
    → member_of name (convert_keys ks fs)
      ≡ or_else (map_option convert_joi_description (key_of name ks)) (member_of name fs)
unfolding convert_joi_description
member-convert_keys name no_keys fs h = refl
member-convert_keys name (key k child ks) fs h =
    member-convert_keys name ks (set_member_of k (convert_joi_description child) fs) h.1
    ∙ ground
        (arith, eq_iff k name, member-set_member_of name k (convert_joi_description child) fs, h.0)

required-key_of :
    (name : String) (ks : Keys)
    → AreDistinct ks
    → has_item name (text_items (required_keys ks)) ≡ is_required_key (key_of name ks)
unfolding required_keys
required-key_of name no_keys h = refl
required-key_of name (key k child ks) h = ground (arith, eq_iff k name, required-key_of name ks h.1)

required-requires :
    (name : String) (properties : Fields) (ks : List String)
    → requires name (object_schema properties ks) ≡ has_item name (text_items ks)
unfolding object_schema
required-requires name properties [] = refl
required-requires name properties (k ∷ ks) = refl

-- The schema of an object by its keys: a property for each key, which is the key's own schema, and
-- a required member for each key that is required.
pub record Describes (keys : Keys) (schema : Json) : Type 0 where
  pub properties : Fields
  pub shown : member "properties" schema ≡ some (obj properties)
  pub property :
      (name : String)
      → member_of name properties ≡ map_option convert_joi_description (key_of name keys)
  pub required : (name : String) → requires name schema ≡ is_required_key (key_of name keys)

-- The schema of an object's description, whose keys are distinct, has under each name the
-- converted description of that key and no other property, and requires exactly the names whose
-- keys are required.
pub object-Describes :
    (presence : Option String) (allow : Option (List Json)) (rules : Option (List Rule))
    (keys : Keys) (items : Descriptions)
    → AreDistinct keys
    → Describes keys
        (convert_joi_description (description "object" presence allow rules keys items))
unfolding convert_joi_description object_schema
object-Describes presence allow rules keys items h = record {
  properties = convert_keys keys end;
  shown = refl;
  property = λ name. member-convert_keys name keys end h ∙ or_none _;
  required = λ name.
      required-requires name (convert_keys keys end) (required_keys keys)
      ∙ required-key_of name keys h;
}
  where
    or_none : (o : Option Json) → or_else o none ≡ o
    or_none none = refl
    or_none (some v) = refl
