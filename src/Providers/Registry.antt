-- ===== src/Providers/Registry.antt =====
-- services/payment-service/src/services/providers/provider-registry-service.ts. The map's keys are
-- the providers' names; its constructor registers the mock provider.
use payment_orchestration_pl.Prelude.{
  String, false, Option, none, some, List, [], ◌∷◌, ◌==◌, if◌then◌else◌,
}
use payment_orchestration_pl.Errors.{Thrown, api_error, Result, ok, err}
use payment_orchestration_pl.Providers.Contract.{PaymentProvider}
use payment_orchestration_pl.Providers.Mock.{mock_payment_provider}

pub record ProviderRegistryService : Type 0 where
  pub default_provider : PaymentProvider
  pub providers : List (String × PaymentProvider)

abbrev pub lookup : String → List (String × PaymentProvider) → Option PaymentProvider
lookup name [] = none
lookup name ((key, p) ∷ m) = if key == name then some p else lookup name m

unfoldable pub provider_registry_service : String → ProviderRegistryService
provider_registry_service mock_name = record {
  default_provider = mock_payment_provider mock_name;
  providers = (mock_name, mock_payment_provider mock_name) ∷ [];
}

-- The source's message ends with the name.
abbrev pub provider_not_configured : Thrown
provider_not_configured = api_error (record {
  code = "PAYMENT_PROVIDER_NOT_CONFIGURED";
  message = "Payment provider is not configured";
  status_code = 500;
  details = none;
  is_operational = false;
})

unfoldable pub get_default_provider : ProviderRegistryService → PaymentProvider
get_default_provider registry = registry.default_provider

unfoldable pub get_provider : ProviderRegistryService → String → Result PaymentProvider
get_provider registry name = elim (lookup name registry.providers) [
  | none ↦ err provider_not_configured
  | some p ↦ ok p
]
