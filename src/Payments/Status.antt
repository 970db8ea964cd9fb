-- ===== src/Payments/Status.antt =====
-- services/payment-service/src/services/payments/payment-state-service.ts
use payment_orchestration_pl.Prelude.{none, Bool, true, false, ◌||◌, List, [], ◌∷◌, if◌then◌else◌}
use payment_orchestration_pl.Errors.{Thrown, api_error, Result, ok, err}
use payment_orchestration_pl.DataAccess.Rows.{
  PaymentStatus, created, authorized, captured, capture_failed, PaymentRecord,
}

abbrev pub status_eq : PaymentStatus → PaymentStatus → Bool
status_eq created created = true
status_eq authorized authorized = true
status_eq PaymentStatus.failed PaymentStatus.failed = true
status_eq captured captured = true
status_eq capture_failed capture_failed = true
status_eq _ _ = false

abbrev pub allowed_transitions : PaymentStatus → List PaymentStatus
allowed_transitions created = authorized ∷ PaymentStatus.failed ∷ []
allowed_transitions authorized = captured ∷ capture_failed ∷ []
allowed_transitions PaymentStatus.failed = []
allowed_transitions captured = []
allowed_transitions capture_failed = []

abbrev pub includes : List PaymentStatus → PaymentStatus → Bool
includes [] s = false
includes (x ∷ xs) s = status_eq x s || includes xs s

-- The message of the transition error names both states in the source.
abbrev pub invalid_transition : Thrown
invalid_transition = api_error (record {
  code = "INVALID_PAYMENT_STATUS_TRANSITION";
  message = "Payment status cannot transition";
  status_code = 409;
  details = none;
  is_operational = true;
})

abbrev pub not_capturable : Thrown
not_capturable = api_error (record {
  code = "PAYMENT_NOT_CAPTURABLE";
  message = "Payment is not capturable";
  status_code = 409;
  details = none;
  is_operational = true;
})

unfoldable pub ensure_transition : PaymentStatus → PaymentStatus → Result (Unit {0})
ensure_transition current target =
    if includes (allowed_transitions current) target then ok tt else err invalid_transition

unfoldable pub ensure_can_capture : PaymentRecord → Result (Unit {0})
ensure_can_capture p = if status_eq p.status authorized then ok tt else err not_capturable
