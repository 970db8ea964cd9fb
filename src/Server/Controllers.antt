-- ===== src/Server/Controllers.antt =====
-- services/payment-service/src/server/controllers/payments/payments-controller.ts. The service is an
-- argument, and so are the JSON of a body and `String(…)` of a value that is no text.
pub mod Answers
use payment_orchestration_pl.Prelude.{
  ℕ, String, Bool, true, false, Option, none, some, List, [], ◌∷◌,
}
use payment_orchestration_pl.Errors.{Thrown, Result, ok, err}
use payment_orchestration_pl.Json.{Json, str, num, member}
use payment_orchestration_pl.DataAccess.Rows.{PaymentDto, ResponseBody, dto}
use payment_orchestration_pl.Exec.{M, pure, ◌>>=◌, try_catch}
use payment_orchestration_pl.Payments.Commands.{
  CreatePaymentCommand, CapturePaymentCommand, PaymentResult,
}
use payment_orchestration_pl.Http.{Request, Handled, responds, next_error}
use payment_orchestration_pl.Http.Correlation.{error_middleware}

-- What the controllers read of a request, with the types that the validation gives to its body and
-- its parameters.
pub record CreateRequest : Type 0 where
  pub correlation_id : Option Json
  pub idempotency_key : Option Json
  pub merchant_id : String
  pub amount_minor : ℕ
  pub currency : String

pub record PaymentRequest : Type 0 where
  pub correlation_id : Option Json
  pub idempotency_key : Option Json
  pub payment_id : String

abbrev pub create_request :
    Request → (merchant_id amount_minor currency : Option Json) → Option CreateRequest
create_request req (some (str m)) (some (num a)) (some (str c)) = some (record {
  correlation_id = member "x-correlation-id" req.headers;
  idempotency_key = member "idempotency-key" req.headers;
  merchant_id = m;
  amount_minor = a;
  currency = c;
})
create_request req _ _ _ = none

abbrev pub payment_request : Request → (payment_id : Option Json) → Option PaymentRequest
payment_request req (some (str p)) = some (record {
  correlation_id = member "x-correlation-id" req.headers;
  idempotency_key = member "idempotency-key" req.headers;
  payment_id = p;
})
payment_request req _ = none

unfoldable pub read_create_request : Request → Option CreateRequest
read_create_request req =
    create_request req (member "merchantId" req.body) (member "amountMinor" req.body)
      (member "currency" req.body)

unfoldable pub read_payment_request : Request → Option PaymentRequest
read_payment_request req = payment_request req (member "paymentId" req.params)

-- `String(value)`
abbrev pub string_of : (Json → String) → Option Json → String
string_of display none = "undefined"
string_of display (some (str s)) = s
string_of display (some v) = display v

module _ (display : Json → String) (json_of : Option ResponseBody → Json) where
  unfoldable pub create_command : CreateRequest → CreatePaymentCommand
  create_command r = record {
    correlation_id = string_of display r.correlation_id;
    idempotency_key = string_of display r.idempotency_key;
    merchant_id = r.merchant_id;
    amount_minor = r.amount_minor;
    currency = r.currency;
  }

  unfoldable pub capture_command : PaymentRequest → CapturePaymentCommand
  capture_command r = record {
    correlation_id = string_of display r.correlation_id;
    idempotency_key = string_of display r.idempotency_key;
    payment_id = r.payment_id;
  }

  abbrev pub respond : M PaymentResult → M Handled
  respond m = do result ← m; pure (responds result.status_code (json_of result.body))

  unfoldable pub create : (CreatePaymentCommand → M PaymentResult) → CreateRequest → M Handled
  unfolding create_command
  create service r = try_catch (respond (service (create_command r))) (λ e. pure (next_error e))

  unfoldable pub capture : (CapturePaymentCommand → M PaymentResult) → PaymentRequest → M Handled
  unfolding capture_command
  capture service r = try_catch (respond (service (capture_command r))) (λ e. pure (next_error e))

  abbrev pub respond_payment : M PaymentDto → M Handled
  respond_payment m = do payment ← m; pure (responds 200 (json_of (some (dto payment))))

  unfoldable pub get_by_id : (String → M PaymentDto) → PaymentRequest → M Handled
  get_by_id service r =
      try_catch (respond_payment (service r.payment_id)) (λ e. pure (next_error e))

-- Express hands what a controller passes to `next` to the error middleware.
unfoldable pub answer : (valid : String → Bool) → Request → Handled → Handled
answer valid req (next_error e) = error_middleware valid e req
answer valid req handled = handled
