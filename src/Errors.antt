-- ===== src/Errors.antt =====
-- services/payment-service/src/types/errors/api-error.ts, and what a call returns or throws.
use payment_orchestration_pl.Prelude.{ℕ, String, Bool, Option}
use payment_orchestration_pl.Json.{Json}

pub record ApiError : Type 0 where
  pub code : String
  pub message : String
  pub status_code : ℕ
  pub details : Option Json
  pub is_operational : Bool

-- An `ApiError`, or any other JavaScript error, of which only the message is kept.
pub data Thrown : Type 0 where
  api_error : ApiError → Thrown
  other_error : String → Thrown

pub data Result {ℓ} (A : Type ℓ) : Type ℓ where
  ok : A → Result A
  err : Thrown → Result A
