-- ===== src/Payments/Commands.antt =====
-- services/payment-service/src/services/payments/payments-service.ts: the commands and results, the rows
-- and events that the operations make of a provider's answer, and the calls of providers.
use payment_orchestration_pl.Prelude.{
  ℕ, ◌+◌, [], ◌∷◌, ◌++◌, String, Bool, true, false, Option, none, some, ◌==◌,
}
use payment_orchestration_pl.Errors.{Thrown, api_error, other_error}
use payment_orchestration_pl.DataAccess.Rows.{
  PaymentStatus, authorized, captured, capture_failed, PaymentRecord, PaymentDto, ResponseBody,
}
use payment_orchestration_pl.DataAccess.Payments.{
  InsertPaymentRecord, UpdateAuthorizedPaymentStatusInput,
}
use payment_orchestration_pl.Exec.{M, pure, throw, ◌>>◌, interleave, head_elapsed, later_ticks}
use payment_orchestration_pl.Providers.Contract.{
  AuthorizePaymentInput, AuthorizePaymentResult, CapturePaymentInput, CapturePaymentResult,
  PaymentProvider, ProviderCall,
}
use payment_orchestration_pl.Outbox.Service.{
  record_payment_authorized, record_payment_captured, record_payment_failed,
}
use payment_orchestration_pl.Outbox.Service

pub record CreatePaymentCommand : Type 0 where
  pub correlation_id : String
  pub idempotency_key : String
  pub merchant_id : String
  pub amount_minor : ℕ
  pub currency : String

pub record CapturePaymentCommand : Type 0 where
  pub correlation_id : String
  pub idempotency_key : String
  pub payment_id : String

-- `CreatePaymentResult` and `CapturePaymentResult`; a replayed body is whatever was stored.
pub record PaymentResult : Type 0 where
  pub status_code : ℕ
  pub body : Option ResponseBody

abbrev pub payment_not_found : Thrown
payment_not_found = api_error (record {
  code = "PAYMENT_NOT_FOUND";
  message = "Payment not found";
  status_code = 404;
  details = none;
  is_operational = true;
})

abbrev pub provider_reference_missing : Thrown
provider_reference_missing = api_error (record {
  code = "PAYMENT_PROVIDER_REFERENCE_MISSING";
  message = "Payment provider reference is missing";
  status_code = 500;
  details = none;
  is_operational = false;
})

abbrev pub to_dto : PaymentRecord → PaymentDto
to_dto p = record {
  id = p.id;
  merchant_id = p.merchant_id;
  amount_minor = p.amount_minor;
  currency = p.currency;
  status = p.status;
  provider = p.provider;
  provider_payment_id = p.provider_payment_id;
  failure_code = p.failure_code;
  failure_message = p.failure_message;
  captured_at = p.captured_at;
  created_at = p.created_at;
}

unfoldable pub is_ownership_lost : Thrown → Bool
is_ownership_lost (api_error e) = e.code == "IDEMPOTENCY_OWNERSHIP_LOST"
is_ownership_lost (other_error _) = false

-- `await provider.authorize(…)`: other requests run meanwhile.
unfoldable pub call_authorize : PaymentProvider → AuthorizePaymentInput → M AuthorizePaymentResult
call_authorize provider input w =
    let w' = interleave w in
    (provider.authorize input, record w' { calls = w'.calls ++ ProviderCall.authorize input ∷ [] })

-- `await provider.capture(…)`, inside the transaction: the process's clock moves on; what other
-- requests commit meanwhile touches no row that the transaction holds, so it comes before.
unfoldable pub call_capture : PaymentProvider → CapturePaymentInput → M CapturePaymentResult
call_capture provider input w = (
  provider.capture input,
  record w {
    now = w.now + head_elapsed w.ticks;
    ticks = later_ticks w.ticks;
    calls = w.calls ++ ProviderCall.capture input ∷ [];
  },
)

abbrev pub authorized_status : AuthorizePaymentResult → PaymentStatus
authorized_status (AuthorizePaymentResult.approved _ _) = authorized
authorized_status (AuthorizePaymentResult.declined _ _ _ _) = PaymentStatus.failed

abbrev pub captured_status : CapturePaymentResult → PaymentStatus
captured_status (CapturePaymentResult.approved _) = captured
captured_status (CapturePaymentResult.declined _ _ _) = capture_failed

-- The row that `create` inserts, by the provider's answer.
abbrev pub new_payment :
    String → CreatePaymentCommand → AuthorizePaymentResult → ℕ → InsertPaymentRecord
new_payment payment_id c (AuthorizePaymentResult.approved provider reference) now = record {
  id = payment_id;
  merchant_id = c.merchant_id;
  amount_minor = c.amount_minor;
  currency = c.currency;
  status = authorized;
  provider = provider;
  provider_payment_id = some reference;
  failure_code = none;
  failure_message = none;
  authorized_at = some now;
  failed_at = none;
}
new_payment payment_id c (AuthorizePaymentResult.declined provider reference code message) now =
    record {
      id = payment_id;
      merchant_id = c.merchant_id;
      amount_minor = c.amount_minor;
      currency = c.currency;
      status = PaymentStatus.failed;
      provider = provider;
      provider_payment_id = reference;
      failure_code = some code;
      failure_message = some message;
      authorized_at = none;
      failed_at = some now;
    }

-- The event of `create`, by the provider's answer.
unfoldable pub record_authorization : String → AuthorizePaymentResult → PaymentRecord → M (Unit {0})
record_authorization correlation_id (AuthorizePaymentResult.approved _ _) p =
    record_payment_authorized correlation_id p >> pure tt
record_authorization correlation_id (AuthorizePaymentResult.declined _ _ _ _) p =
    record_payment_failed correlation_id Service.Operation.authorize p >> pure tt

abbrev pub capture_update : String → CapturePaymentResult → ℕ → UpdateAuthorizedPaymentStatusInput
capture_update id (CapturePaymentResult.approved _) now = record {
  id = id;
  status = captured;
  captured_at = some now;
  failed_at = none;
  failure_code = none;
  failure_message = none;
}
capture_update id (CapturePaymentResult.declined _ code message) now = record {
  id = id;
  status = capture_failed;
  captured_at = none;
  failed_at = some now;
  failure_code = some code;
  failure_message = some message;
}

unfoldable pub record_capture : String → CapturePaymentResult → PaymentRecord → M (Unit {0})
record_capture correlation_id (CapturePaymentResult.approved _) p =
    record_payment_captured correlation_id p >> pure tt
record_capture correlation_id (CapturePaymentResult.declined _ _ _) p =
    record_payment_failed correlation_id Service.Operation.capture p >> pure tt

abbrev pub or_throw : {A : Type 0} → Thrown → Option A → M A
or_throw e none = throw e
or_throw e (some a) = pure a
