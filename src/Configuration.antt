-- ===== src/Configuration.antt =====
-- The configuration that the constructors of services/payment-service/src and services/api-gateway/src read
-- from the environment. JavaScript's numbers are a parameter.
pub mod Settings
mod Tests
use Prim.Native.String.{◌++◌}
use payment_orchestration_pl.Prelude.{
  ℕ, String, Bool, true, false, ◌&&◌, not, Option, none, some, ◌==◌, if◌then◌else◌,
}
use payment_orchestration_pl.Errors.{Thrown, other_error, Result, ok, err}

-- `Number(text)`, the number of a literal, and the tests on numbers.
pub record Numbers : Type 1 where
  pub Number : Type 0
  pub number : String → Number
  pub literal : ℕ → Number
  pub is_integer : Number → Bool
  pub is_finite : Number → Bool
  pub is_positive : Number → Bool

abbrev pub Environment : Type 0
Environment = String → Option String

infixl 5 ◌>>=◌
abbrev pub ◌>>=◌ {ℓ κ} : {A : Type ℓ} {B : Type κ} → Result A → (A → Result B) → Result B
ok a >>= f = f a
err e >>= f = err e

module _ (n : Numbers) where
  open n use {Number, number, literal, is_integer, is_finite, is_positive}

  -- Of the worker, the publisher and the bootstrap.
  unfoldable pub parse_positive_integer :
      Option String → (name : String) → (default_value : ℕ) → Result Number
  parse_positive_integer none name default_value = ok (literal default_value)
  parse_positive_integer (some value) name default_value =
      if is_integer (number value) && is_finite (number value) && is_positive (number value)
      then ok (number value)
      else err (other_error (name ++ " must be a positive finite integer"))

  -- Of the idempotency service.
  unfoldable pub parse_positive_number :
      Option String → (fallback : ℕ) → (name : String) → Result Number
  parse_positive_number value fallback name =
      let parsed : Number = elim value [ none ↦ literal fallback | some text ↦ number text ] in
      if is_finite parsed && is_positive parsed
      then ok parsed
      else err (other_error (name ++ " must be a positive number"))

  pub record WorkerConfig : Type 0 where
    pub poll_interval_ms : Number
    pub batch_size : Number
    pub max_attempts : Number
    pub retry_base_delay_ms : Number
    pub retry_max_delay_ms : Number

  -- The constructor of the worker; the grace period is only checked.
  unfoldable pub worker_config : Environment → Result WorkerConfig
  worker_config env = do
    poll_interval_ms ←
        parse_positive_integer (env "OUTBOX_POLL_INTERVAL_MS") "OUTBOX_POLL_INTERVAL_MS" 1000
    batch_size ← parse_positive_integer (env "OUTBOX_BATCH_SIZE") "OUTBOX_BATCH_SIZE" 50
    max_attempts ← parse_positive_integer (env "OUTBOX_MAX_ATTEMPTS") "OUTBOX_MAX_ATTEMPTS" 10
    retry_base_delay_ms ←
        parse_positive_integer (env "OUTBOX_RETRY_BASE_DELAY_MS") "OUTBOX_RETRY_BASE_DELAY_MS" 1000
    retry_max_delay_ms ←
        parse_positive_integer (env "OUTBOX_RETRY_MAX_DELAY_MS") "OUTBOX_RETRY_MAX_DELAY_MS" 60000
    shutdown_grace_ms ←
        parse_positive_integer (env "OUTBOX_SHUTDOWN_GRACE_MS") "OUTBOX_SHUTDOWN_GRACE_MS" 30000
    ok (record {
      poll_interval_ms = poll_interval_ms;
      batch_size = batch_size;
      max_attempts = max_attempts;
      retry_base_delay_ms = retry_base_delay_ms;
      retry_max_delay_ms = retry_max_delay_ms;
    })

  -- The constructor of the publisher.
  unfoldable pub confirm_timeout_ms : Environment → Result Number
  confirm_timeout_ms env =
      parse_positive_integer (env "RABBITMQ_PUBLISH_CONFIRM_TIMEOUT_MS")
        "RABBITMQ_PUBLISH_CONFIRM_TIMEOUT_MS" 10000

  pub record BootstrapConfig : Type 0 where
    pub port : Number
    pub shutdown_grace_ms : Number

  -- The constructor of the bootstrap.
  unfoldable pub bootstrap_config : Environment → Result BootstrapConfig
  bootstrap_config env = do
    shutdown_grace_ms ←
        parse_positive_integer (env "OUTBOX_SHUTDOWN_GRACE_MS") "OUTBOX_SHUTDOWN_GRACE_MS" 30000
    ok (record {
      port = elim (env "PORT") [ none ↦ literal 8080 | some port ↦ number port ];
      shutdown_grace_ms = shutdown_grace_ms;
    })

  pub record IdempotencyConfig : Type 0 where
    pub processing_lease_ms : Number
    pub completed_ttl_ms : Number
    pub failed_ttl_ms : Number

  -- The constructor of the idempotency service.
  unfoldable pub idempotency_config : Environment → Result IdempotencyConfig
  idempotency_config env = do
    processing_lease_ms ←
        parse_positive_number (env "IDEMPOTENCY_PROCESSING_LEASE_MS") 60000
          "IDEMPOTENCY_PROCESSING_LEASE_MS"
    completed_ttl_ms ←
        parse_positive_number (env "IDEMPOTENCY_COMPLETED_TTL_MS") 86400000
          "IDEMPOTENCY_COMPLETED_TTL_MS"
    failed_ttl_ms ←
        parse_positive_number (env "IDEMPOTENCY_FAILED_TTL_MS") 3600000 "IDEMPOTENCY_FAILED_TTL_MS"
    ok (record {
      processing_lease_ms = processing_lease_ms;
      completed_ttl_ms = completed_ttl_ms;
      failed_ttl_ms = failed_ttl_ms;
    })

  pub record ClientConfig : Type 0 where
    pub base_url : String
    pub internal_token : String
    pub timeout_ms : Number

  abbrev is_empty : Option String → Bool
  is_empty none = true
  is_empty (some s) = s == ""

  abbrev or_default : Option String → String → String
  or_default none d = d
  or_default (some s) d = s

  -- The constructor of the gateway's client of the payment service.
  unfoldable pub client_config : Environment → Result ClientConfig
  client_config env =
      let timeout_ms : Number = elim (env "PAYMENT_SERVICE_TIMEOUT_MS") [
        | none ↦ literal 5000
        | some text ↦ number text
      ] in
      if is_empty (env "INTERNAL_SERVICE_TOKEN")
      then err (other_error "INTERNAL_SERVICE_TOKEN is required")
      else if is_finite timeout_ms && is_positive timeout_ms
      then ok (record {
        base_url = or_default (env "PAYMENT_SERVICE_BASE_URL") "http://payment-service:8080";
        internal_token = or_default (env "INTERNAL_SERVICE_TOKEN") "";
        timeout_ms = timeout_ms;
      })
      else err (other_error "PAYMENT_SERVICE_TIMEOUT_MS must be a positive number")

-- The constructor of the gateway's `ApiKeyAuthProvider`.
unfoldable pub public_api_key : Environment → Result String
public_api_key env = elim (env "PUBLIC_API_KEY") [
  | none ↦ err (other_error "PUBLIC_API_KEY is required")
  | some key ↦ if key == "" then err (other_error "PUBLIC_API_KEY is required") else ok key
]
