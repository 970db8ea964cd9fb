-- ===== src/Payments/Captured/Tests.antt =====
-- A capture that succeeds, on a concrete request.
use payment_orchestration_pl.Prelude.{refl, [], ◌∷◌, ne_of_eq-false}
use payment_orchestration_pl.Tables.{first_where}
use payment_orchestration_pl.Exec.{World}
use payment_orchestration_pl.Providers.Mock
use payment_orchestration_pl.Providers.Mock.{mock_payment_provider}
use payment_orchestration_pl.Providers.Registry.{get_provider, provider_registry_service}
use payment_orchestration_pl.Payments.Service.{capture}
use payment_orchestration_pl.Payments.Captured.{IsCapturable}
use payment_orchestration_pl.Payments.Captured.Success.{IsFree, Captures, capture_succeeds}
use payment_orchestration_pl.Samples.{
  sample_service, sample_capture, sample_payment, empty_db, quiet_world,
}

abbrev authorized_world : World
authorized_world = quiet_world (record empty_db { payments = sample_payment ∷ [] })

authorized_world-IsCapturable :
    IsCapturable sample_service sample_capture sample_payment
      (mock_payment_provider "mock-provider")
      "mock_p1"
      authorized_world
unfolding get_provider provider_registry_service mock_payment_provider Mock.capture first_where
authorized_world-IsCapturable = record {
  quiet = refl;
  found = refl;
  is_authorized = refl;
  configured = refl;
  referenced = refl;
  named = ne_of_eq-false "mock_p1" "" refl;
  approves = refl;
}

authorized_world-IsFree : IsFree sample_service sample_capture authorized_world
unfolding first_where
authorized_world-IsFree = record {
  id_named = ne_of_eq-false "p1" "" refl;
  token_named = ne_of_eq-false "u0" "" refl;
  key_free = refl;
  record_free = refl;
  event_free = refl;
}

capture_succeeds_example :
    Captures sample_service sample_capture sample_payment "mock_p1" authorized_world
      (capture sample_service sample_capture authorized_world)
capture_succeeds_example =
    capture_succeeds sample_service sample_capture sample_payment
      (mock_payment_provider "mock-provider") "mock_p1" authorized_world
      authorized_world-IsCapturable authorized_world-IsFree
