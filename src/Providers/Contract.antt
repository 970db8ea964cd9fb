-- ===== src/Providers/Contract.antt =====
-- services/payment-service/src/services/providers/payment-provider.ts: what an adapter of an
-- external gateway takes and returns.
use payment_orchestration_pl.Prelude.{ℕ, String, Option}
use payment_orchestration_pl.Errors.{Result}

pub record AuthorizePaymentInput : Type 0 where
  pub payment_id : String
  pub merchant_id : String
  pub amount_minor : ℕ
  pub currency : String

pub data AuthorizePaymentResult : Type 0 where
  approved : (provider provider_payment_id : String) → AuthorizePaymentResult
  declined :
      (provider : String) (provider_payment_id : Option String)
      (failure_code failure_message : String)
      → AuthorizePaymentResult

pub record CapturePaymentInput : Type 0 where
  pub payment_id : String
  pub provider_payment_id : String
  pub amount_minor : ℕ
  pub currency : String

pub data CapturePaymentResult : Type 0 where
  approved : (provider : String) → CapturePaymentResult
  declined : (provider failure_code failure_message : String) → CapturePaymentResult

-- Either method may reject.
pub record PaymentProvider : Type 0 where
  pub authorize : AuthorizePaymentInput → Result AuthorizePaymentResult
  pub capture : CapturePaymentInput → Result CapturePaymentResult

-- One call of a provider's method.
pub data ProviderCall : Type 0 where
  authorize : AuthorizePaymentInput → ProviderCall
  capture : CapturePaymentInput → ProviderCall
