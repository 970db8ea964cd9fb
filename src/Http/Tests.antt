-- ===== src/Http/Tests.antt =====
-- The middlewares on concrete requests.
use payment_orchestration_pl.Prelude.{◌≡◌, refl, String, Bool, true, false, Option, none, some, []}
use payment_orchestration_pl.Json.{str, obj, end, field}
use payment_orchestration_pl.Http.{Request}
use payment_orchestration_pl.Http.CorrelationId.{
  is_correlation_id, ShowsCorrelation, correlation_id_middleware-ShowsCorrelation,
}
use payment_orchestration_pl.Http.Validation.{
  RequestSegment, body, rejected, Schema, create_validation_handler, IsValidated,
  create_validation_handler-IsValidated,
}

abbrev all_valid : String → Bool
all_valid s = true

abbrev a_request : Request
a_request = record {
  body = obj end;
  params = obj end;
  query = obj end;
  headers = obj (field "x-internal-token" (str "token") end);
}

-- Only the body has a schema, which rejects everything.
abbrev strict : RequestSegment → Option Schema
strict body = some (λ strip value. rejected [])
strict _ = none

create_validation_handler-IsValidated_example :
    IsValidated all_valid strict a_request (create_validation_handler all_valid strict a_request)
create_validation_handler-IsValidated_example =
    create_validation_handler-IsValidated all_valid strict a_request

abbrev spaced_request : Request
spaced_request = record a_request { headers = obj (field "x-correlation-id" (str "a b") end) }

accepts_visible : is_correlation_id "order-17" ≡ true
unfolding is_correlation_id
accepts_visible = refl

rejects_space : is_correlation_id "a b" ≡ false
unfolding is_correlation_id
rejects_space = refl

rejects_empty : is_correlation_id "" ≡ false
unfolding is_correlation_id
rejects_empty = refl

correlation_id_middleware-ShowsCorrelation_example : ShowsCorrelation "u0" spaced_request
correlation_id_middleware-ShowsCorrelation_example =
    correlation_id_middleware-ShowsCorrelation "u0" spaced_request
