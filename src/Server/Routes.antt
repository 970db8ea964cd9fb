-- ===== src/Server/Routes.antt =====
-- services/payment-service/src/server/routes: how Joi's schemas and the documented responses are written.
pub mod Internal
pub mod Public
use payment_orchestration_pl.Prelude.{ℕ, String, Bool, true, Option, none, some, List, [], ◌∷◌}
use payment_orchestration_pl.Json.{Json, bool, str, arr, obj, Items, nil, cons, Fields, end, field}
use payment_orchestration_pl.OpenApi.Paths.{RouteResponseContract}

-- A call that narrows a schema.
pub data Call : Type 0 where
  min : ℕ → Call
  max : ℕ → Call
  pattern : String → Call
  valid : List String → Call
  uuid integer positive required optional : Call

-- The schemas that the routes make of Joi; an object may allow unknown keys.
mutual
  pub data Schema : Type 0 where
    object : JoiKeys → (unknown : Bool) → Schema
    string : List Call → Schema
    number : List Call → Schema

  pub data JoiKeys : Type 0 where
    no_keys : JoiKeys
    key : String → Schema → JoiKeys → JoiKeys

unfoldable pub correlation_id_header_schema : Schema
correlation_id_header_schema = string (min 1 ∷ max 128 ∷ pattern "^[!-~]+$" ∷ optional ∷ [])

abbrev pub amount_minor_max : ℕ
amount_minor_max = 1000000000000

abbrev pub fields_of : List (String × Json) → Fields
fields_of [] = end
fields_of ((k, v) ∷ fs) = field k v (fields_of fs)

abbrev text_list : List String → Items
text_list [] = nil
text_list (s ∷ ss) = cons (str s) (text_list ss)

abbrev pub texts : List String → Json
texts ss = arr (text_list ss)

abbrev pub typed : String → Json
typed t = obj (fields_of (("type", str t) ∷ []))

abbrev pub formatted : String → Json
formatted f = obj (fields_of (("type", str "string") ∷ ("format", str f) ∷ []))

abbrev pub nullable_text : String → Json
nullable_text t = obj (fields_of (("type", str t) ∷ ("nullable", bool true) ∷ []))

abbrev pub enumerated : List String → Json
enumerated values = obj (fields_of (("type", str "string") ∷ ("enum", texts values) ∷ []))

abbrev pub documented : String → Json → RouteResponseContract
documented description schema = record { description = description; schema = some schema }
