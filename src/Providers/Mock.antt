-- ===== src/Providers/Mock.antt =====
-- services/payment-service/src/services/providers/mock-payment-provider.ts
use Prim.Native.String
use payment_orchestration_pl.Prelude.{String, Option, none, get_or, nat_eq, if◌then◌else◌}
use payment_orchestration_pl.Errors.{Result, ok}
use payment_orchestration_pl.Providers.Contract.{
  AuthorizePaymentInput, AuthorizePaymentResult, CapturePaymentInput, CapturePaymentResult,
  PaymentProvider,
}

-- The constructor's `MOCK_PROVIDER_NAME ?? 'mock-provider'`.
abbrev pub provider_name : Option String → String
provider_name env_name = get_or env_name "mock-provider"

module _ (name : String) where
  unfoldable pub authorize : AuthorizePaymentInput → Result AuthorizePaymentResult
  authorize input = ok (
      if nat_eq input.amount_minor 9999
      then AuthorizePaymentResult.declined name none "MOCK_AUTHORIZATION_FAILED"
          "Mock provider authorization failure"
      else AuthorizePaymentResult.approved name (String.◌++◌ "mock_" input.payment_id))

  unfoldable pub capture : CapturePaymentInput → Result CapturePaymentResult
  capture input = ok (
      if nat_eq input.amount_minor 8888
      then CapturePaymentResult.declined name "MOCK_CAPTURE_FAILED" "Mock provider capture failure"
      else CapturePaymentResult.approved name)

  unfoldable pub mock_payment_provider : PaymentProvider
  mock_payment_provider = record { authorize = authorize; capture = capture }
