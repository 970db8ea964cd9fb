-- ===== src/Gateway/Controllers.antt =====
-- services/api-gateway/src/server/controllers/payments/payments-controller.ts, and
-- services/api-gateway/src/services/payments-gateway-service.ts, through which it calls the client.
-- `display` is `String(…)` of a value that is no text.
pub mod Forwarding
use payment_orchestration_pl.Prelude.{ℕ, String, Option, none, some, List}
use payment_orchestration_pl.Json.{Json, obj, Fields, end, field}
use payment_orchestration_pl.Gateway.Client.{
  Outcome, returns, throws, Caught, SentRequest, PaymentServiceClient, PaymentServiceResponse,
}
use payment_orchestration_pl.Gateway.Client
use payment_orchestration_pl.Server.Controllers.{CreateRequest, PaymentRequest, string_of}

pub record CreatePaymentGatewayCommand : Type 0 where
  pub correlation_id : String
  pub idempotency_key : String
  pub merchant_id : String
  pub amount_minor : ℕ
  pub currency : String

pub record GetPaymentGatewayQuery : Type 0 where
  pub correlation_id : String
  pub payment_id : String

pub record CapturePaymentGatewayCommand : Type 0 where
  pub correlation_id : String
  pub idempotency_key : String
  pub payment_id : String

-- `res.status(…).json(…)` or `next(error)`.
pub data Reply : Type 0 where
  responds : (status : ℕ) (content : Json) → Reply
  next_error : Caught → Reply

-- `{ data, correlationId }`, of which an undefined id is left out.
abbrev pub correlated : (content : Json) → (correlation_id : Option Json) → Json
correlated content none = obj (field "data" content end)
correlated content (some id) = obj (field "data" content (field "correlationId" id end))

module _ (client : PaymentServiceClient) where
  abbrev service_create :
      CreatePaymentGatewayCommand
      → List SentRequest
      → Outcome PaymentServiceResponse × List SentRequest
  service_create c =
      Client.create client c.correlation_id c.idempotency_key c.merchant_id c.amount_minor
        c.currency

  abbrev service_get_by_id :
      GetPaymentGatewayQuery → List SentRequest → Outcome Json × List SentRequest
  service_get_by_id q = Client.get_by_id client q.correlation_id q.payment_id

  abbrev service_capture :
      CapturePaymentGatewayCommand
      → List SentRequest
      → Outcome PaymentServiceResponse × List SentRequest
  service_capture c = Client.capture client c.correlation_id c.idempotency_key c.payment_id

  module _ (display : Json → String) where
    abbrev reply_of : (correlation_id : Option Json) → Outcome PaymentServiceResponse → Reply
    reply_of id (returns result) = responds result.status_code (correlated result.body id)
    reply_of id (throws error) = next_error error

    abbrev reply_with : (correlation_id : Option Json) → Outcome Json → Reply
    reply_with id (returns result) = responds 200 (correlated result id)
    reply_with id (throws error) = next_error error

    unfoldable pub create : CreateRequest → List SentRequest → Reply × List SentRequest
    create r sent =
        let (outcome, sent') =
          service_create
            (record {
              correlation_id = string_of display r.correlation_id;
              idempotency_key = string_of display r.idempotency_key;
              merchant_id = r.merchant_id;
              amount_minor = r.amount_minor;
              currency = r.currency;
            })
            sent in
        (reply_of r.correlation_id outcome, sent')

    unfoldable pub get_by_id : PaymentRequest → List SentRequest → Reply × List SentRequest
    get_by_id r sent =
        let (outcome, sent') =
          service_get_by_id
            (record {
              correlation_id = string_of display r.correlation_id;
              payment_id = r.payment_id;
            })
            sent in
        (reply_with r.correlation_id outcome, sent')

    unfoldable pub capture : PaymentRequest → List SentRequest → Reply × List SentRequest
    capture r sent =
        let (outcome, sent') =
          service_capture
            (record {
              correlation_id = string_of display r.correlation_id;
              idempotency_key = string_of display r.idempotency_key;
              payment_id = r.payment_id;
            })
            sent in
        (reply_of r.correlation_id outcome, sent')
