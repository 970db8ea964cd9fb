-- ===== src/Http/Validation.antt =====
-- services/payment-service/src/server: the validation of requests, the correlation middleware and the
-- error middleware. Joi's schemas are parameters, and so is `correlationIdHeaderSchema` as `valid`.
use Prim.Native.String.{◌++◌ as ◌+s+◌}
use payment_orchestration_pl.Prelude.{
  String, ◌≡◌, Bool, true, false, Option, none, some, List, [], ◌∷◌, arith,
}
use payment_orchestration_pl.Json.{Json, str, arr, obj, Items, nil, cons, end, field}
use payment_orchestration_pl.Http.{Request, Handled, responds, next, header_text}
use payment_orchestration_pl.Http.Auth.{error_body, get_valid_correlation_id}

pub data RequestSegment : Type 0 where
  body params query headers : RequestSegment

abbrev pub validation_order : List RequestSegment
validation_order = body ∷ params ∷ query ∷ headers ∷ []

abbrev pub segment_of : RequestSegment → Request → Json
segment_of body req = req.body
segment_of params req = req.params
segment_of query req = req.query
segment_of headers req = req.headers

abbrev pub with_segment : RequestSegment → Json → Request → Request
with_segment body v req = record req { body = v }
with_segment params v req = record req { params = v }
with_segment query v req = record req { query = v }
with_segment headers v req = record req { headers = v }

-- A detail of Joi's error. The elements of a path are texts here, which `join` makes of them.
pub record ValidationDetail : Type 0 where
  pub path : List String
  pub message : String

-- `schema.validate(value)`: the value that it makes, or the details of its error.
pub data Validated : Type 0 where
  accepted : (value : Json) → Validated
  rejected : (details : List ValidationDetail) → Validated

abbrev pub segment_name : RequestSegment → String
segment_name body = "body"
segment_name params = "params"
segment_name query = "query"
segment_name headers = "headers"

-- `[first, ...rest].join('.')`
abbrev pub join_dots : (first : String) → (rest : List String) → String
join_dots first [] = first
join_dots first (s ∷ rest) = first +s+ ("." +s+ join_dots s rest)

abbrev pub detail_items : RequestSegment → List ValidationDetail → Items
detail_items segment [] = nil
detail_items segment (d ∷ ds) =
    cons
      (obj (
        field "path" (str (join_dots (segment_name segment) d.path))
          (field "message" (str d.message) end)))
      (detail_items segment ds)

unfoldable pub format_validation_details : List ValidationDetail → RequestSegment → Json
format_validation_details details segment = arr (detail_items segment details)

-- A schema, with whether unknown keys are stripped, which all segments but the headers ask for.
abbrev pub Schema : Type 0
Schema = Bool → Json → Validated

abbrev pub strips_unknown : RequestSegment → Bool
strips_unknown headers = false
strips_unknown _ = true

module _ (valid : String → Bool) where
  abbrev pub validation_error : Json → Request → Handled
  validation_error details req = responds 400 (
      error_body (str "VALIDATION_ERROR") (str "Validation failed") details
        (get_valid_correlation_id valid (header_text "x-correlation-id" req)))

  module _ (validation : RequestSegment → Option Schema) where
    -- What one segment's schema makes of the request.
    abbrev pub validate_segment : RequestSegment → Request → Validated
    validate_segment segment req = elim (validation segment) [
      | none ↦ accepted (segment_of segment req)
      | some schema ↦ schema (strips_unknown segment) (segment_of segment req)
    ]

    unfoldable pub validate_all : List RequestSegment → Request → Handled
    unfolding format_validation_details
    validate_all [] req = next req none none
    validate_all (segment ∷ segments) req = elim (validate_segment segment req) [
      | rejected details ↦ validation_error (format_validation_details details segment) req
      | accepted value ↦ validate_all segments (with_segment segment value req)
    ]

    unfoldable pub create_validation_handler : Request → Handled
    create_validation_handler req = validate_all validation_order req

    -- The outcome by the verdict on each segment, in their order.
    pub record IsValidated (req : Request) (x : Handled) : Type 0 where
      pub accepts :
          (b p q h : Json)
          → validate_segment body req ≡ accepted b
          → validate_segment params req ≡ accepted p
          → validate_segment query req ≡ accepted q
          → validate_segment headers req ≡ accepted h
          → x ≡ next (record { body = b; params = p; query = q; headers = h }) none none
      pub rejects_body :
          (d : List ValidationDetail)
          → validate_segment body req ≡ rejected d
          → x ≡ validation_error (format_validation_details d body) req
      pub rejects_params :
          (b : Json) (d : List ValidationDetail)
          → validate_segment body req ≡ accepted b
          → validate_segment params req ≡ rejected d
          → x ≡ validation_error (format_validation_details d params) req
      pub rejects_query :
          (b p : Json) (d : List ValidationDetail)
          → validate_segment body req ≡ accepted b
          → validate_segment params req ≡ accepted p
          → validate_segment query req ≡ rejected d
          → x ≡ validation_error (format_validation_details d query) req
      pub rejects_headers :
          (b p q : Json) (d : List ValidationDetail)
          → validate_segment body req ≡ accepted b
          → validate_segment params req ≡ accepted p
          → validate_segment query req ≡ accepted q
          → validate_segment headers req ≡ rejected d
          → x ≡ validation_error (format_validation_details d headers) req

    -- The validation passes a request on, with the values of its schemas, where every segment is
    -- accepted, and else answers 400 with the details of the first segment, in the order body,
    -- params, query, headers, that is rejected.
    pub create_validation_handler-IsValidated :
        (req : Request) → IsValidated req (create_validation_handler req)
    unfolding create_validation_handler validate_all
    create_validation_handler-IsValidated req = record {
      accepts = λ b p q h eb ep eq eh. ground (arith, eb, ep, eq, eh);
      rejects_body = λ d e. ground (arith, e);
      rejects_params = λ b d eb e. ground (arith, eb, e);
      rejects_query = λ b p d eb ep e. ground (arith, eb, ep, e);
      rejects_headers = λ b p q d eb ep eq e. ground (arith, eb, ep, eq, e);
    }
