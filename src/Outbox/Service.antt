-- ===== src/Outbox/Service.antt =====
-- services/payment-service/src/services/outbox/outbox-service.ts. The methods run inside the
-- caller's transaction.
use payment_orchestration_pl.Prelude.{ℕ, String, Option, none, some, ◌==◌, if◌then◌else◌}
use payment_orchestration_pl.Errors.{Thrown, other_error, Result, ok, err}
use payment_orchestration_pl.Json.{Json, null, num, str, instant, Fields, end, field, ◌<+>◌}
use payment_orchestration_pl.DataAccess.Rows.{
  PaymentRecord, PaymentEventType, payment_authorized_v1, payment_captured_v1, payment_failed_v1,
  PaymentEventEnvelope, OutboxEventRecord,
}
use payment_orchestration_pl.DataAccess.Outbox.{InsertPendingOutboxEvent, insert_pending}
use payment_orchestration_pl.Exec.{M, ◌>>=◌, lift, gets, random_uuid, query}

-- The operation of a failed event.
pub data Operation : Type 0 where
  authorize capture : Operation

abbrev pub operation_name : Operation → String
operation_name authorize = "AUTHORIZE"
operation_name capture = "CAPTURE"

abbrev pub failure_status : Operation → String
failure_status authorize = "FAILED"
failure_status capture = "CAPTURE_FAILED"

pub build_payment_payload : PaymentRecord → Fields
build_payment_payload p = field "paymentId" (str p.id) (
    field "merchantId" (str p.merchant_id) (
      field "amountMinor" (num p.amount_minor)
        (field "currency" (str p.currency) (field "provider" (str p.provider) end))))

-- `new Date('')` is not a time, so `toISOString` throws on a missing value.
unfoldable pub to_iso_timestamp : Option ℕ → Result ℕ
to_iso_timestamp none = err (other_error "Invalid time value")
to_iso_timestamp (some t) = ok t

-- The source's message ends with the field's name.
abbrev pub missing_field : Thrown
missing_field = other_error "Cannot record outbox event without a required field"

unfoldable pub require_non_empty_string : Option String → Result String
require_non_empty_string none = err missing_field
require_non_empty_string (some s) = if s == "" then err missing_field else ok s

abbrev pub nullable : Option String → Json
nullable none = null
nullable (some s) = str s

-- The envelope and the row that carries it.
abbrev pub envelope :
    String → PaymentEventType → String → ℕ → PaymentRecord → Fields → PaymentEventEnvelope
envelope event_id event_type correlation_id now p payload = record {
  event_id = event_id;
  event_type = event_type;
  event_version = 1;
  source = "payment-service";
  correlation_id = correlation_id;
  occurred_at = now;
  aggregate_type = "payment";
  aggregate_id = p.id;
  payload = payload;
}

abbrev pub new_event :
    String → PaymentEventType → String → ℕ → PaymentRecord → Fields → InsertPendingOutboxEvent
new_event event_id event_type correlation_id now p payload = record {
  id = event_id;
  aggregate_type = "payment";
  aggregate_id = p.id;
  event_type = event_type;
  event_version = 1;
  routing_key = event_type;
  payload = envelope event_id event_type correlation_id now p payload;
}

unfoldable pub record_event :
    PaymentEventType → String → PaymentRecord → Fields → M OutboxEventRecord
record_event event_type correlation_id p payload = do
  event_id ← random_uuid
  now ← gets (λ w. w.now)
  query (insert_pending (new_event event_id event_type correlation_id now p payload))

abbrev pub authorized_payload : PaymentRecord → String → ℕ → Fields
authorized_payload p reference authorized_at =
    build_payment_payload p
    <+> field "providerPaymentId" (str reference) (field "authorizedAt" (instant authorized_at) end)

unfoldable pub record_payment_authorized : String → PaymentRecord → M OutboxEventRecord
record_payment_authorized correlation_id p = do
  reference ← lift (require_non_empty_string p.provider_payment_id)
  authorized_at ← lift (to_iso_timestamp p.authorized_at)
  record_event payment_authorized_v1 correlation_id p (authorized_payload p reference authorized_at)

unfoldable pub record_payment_captured : String → PaymentRecord → M OutboxEventRecord
record_payment_captured correlation_id p = do
  reference ← lift (require_non_empty_string p.provider_payment_id)
  captured_at ← lift (to_iso_timestamp p.captured_at)
  record_event payment_captured_v1 correlation_id p (
      build_payment_payload p
      <+> field "providerPaymentId" (str reference) (field "capturedAt" (instant captured_at) end))

unfoldable pub record_payment_failed : String → Operation → PaymentRecord → M OutboxEventRecord
record_payment_failed correlation_id operation p = do
  failure_code ← lift (require_non_empty_string p.failure_code)
  failure_message ← lift (require_non_empty_string p.failure_message)
  failed_at ← lift (to_iso_timestamp p.failed_at)
  record_event payment_failed_v1 correlation_id p (
      build_payment_payload p
      <+> field "providerPaymentId" (nullable p.provider_payment_id) (
          field "operation" (str (operation_name operation)) (
            field "status" (str (failure_status operation)) (
              field "failureCode" (str failure_code) (
                field "failureMessage" (str failure_message)
                  (field "failedAt" (instant failed_at) end))))))
