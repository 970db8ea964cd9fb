-- ===== src/Samples.antt =====
-- Concrete services, requests and databases, on which the tests run the code.
use payment_orchestration_pl.Prelude.{ℕ, zero, suc, String, none, some, [], ◌∷◌}
use payment_orchestration_pl.DataAccess.Rows.{
  authorized, PaymentRecord, dto, IdempotencyStatus, IdempotencyRecord, payment_authorized_v1,
  pending, OutboxEventRecord, Db,
}
use payment_orchestration_pl.Json.{end}
use payment_orchestration_pl.Exec.{World, Tick, healthy}
use payment_orchestration_pl.Providers.Registry.{provider_registry_service}
use payment_orchestration_pl.Idempotency.Service.{IdempotencyService, Started}
use payment_orchestration_pl.Payments.Commands.{CreatePaymentCommand, CapturePaymentCommand, to_dto}
use payment_orchestration_pl.Payments.Service.{PaymentsService}

abbrev pub sample_idempotency : IdempotencyService
sample_idempotency = record {
  processing_lease_ms = 60000;
  completed_ttl_ms = 86400000;
  failed_ttl_ms = 86400000;
  digest = λ body. "hash";
  parse_json = λ t. none;
}

abbrev pub sample_service : PaymentsService
sample_service = record {
  idempotency_service = sample_idempotency;
  provider_registry_service = provider_registry_service "mock-provider";
}

abbrev pub sample_create : CreatePaymentCommand
sample_create = record {
  correlation_id = "corr";
  idempotency_key = "key";
  merchant_id = "m1";
  amount_minor = 1250;
  currency = "TRY";
}

abbrev pub sample_capture : CapturePaymentCommand
sample_capture = record { correlation_id = "corr"; idempotency_key = "key"; payment_id = "p1" }

abbrev pub sample_uuid : ℕ → String
sample_uuid zero = "u0"
sample_uuid (suc zero) = "u1"
sample_uuid (suc (suc zero)) = "u2"
sample_uuid (suc (suc (suc zero))) = "u3"
sample_uuid (suc (suc (suc (suc n)))) = "u4"

abbrev pub empty_db : Db
empty_db = record { payments = []; idempotency_keys = []; outbox_events = [] }

-- Nothing interferes in it.
abbrev pub quiet_world : Db → World
quiet_world db = record {
  db = db;
  now = 1000;
  db_now = 1001;
  uuid = sample_uuid;
  drawn = 0;
  ticks = [];
  calls = [];
}

abbrev pub sample_payment : PaymentRecord
sample_payment = record {
  id = "p1";
  merchant_id = "m1";
  amount_minor = 1250;
  currency = "TRY";
  status = authorized;
  provider = "mock-provider";
  provider_payment_id = some "mock_p1";
  failure_code = none;
  failure_message = none;
  authorized_at = some 900;
  captured_at = none;
  failed_at = none;
  created_at = 901;
  updated_at = 901;
}

-- The record of a request under "key", in a scope.
abbrev pub sample_key : String → IdempotencyStatus → IdempotencyRecord
sample_key scope status = record {
  id = "k1";
  scope = scope;
  idempotency_key = "key";
  request_hash = "hash";
  status = status;
  resource_type = some "payment";
  resource_id = some "p1";
  response_status_code = some 201;
  response_body = some (dto (to_dto sample_payment));
  created_at = 901;
  updated_at = 901;
  expires_at = none;
  processing_expires_at = some 61000;
  processing_token = "t1";
}

abbrev pub create_scope : String
create_scope = "payments:create:m1"

abbrev pub capture_scope : String
capture_scope = "payments:capture:p1"

abbrev pub keyed_db : IdempotencyRecord → Db
keyed_db r = record empty_db { payments = sample_payment ∷ []; idempotency_keys = r ∷ [] }

abbrev pub sample_started : Started
sample_started = record { record_id = "k1"; resource_id = "p1"; processing_token = "t1" }

abbrev pub sample_event : OutboxEventRecord
sample_event = record {
  id = "e1";
  aggregate_type = "payment";
  aggregate_id = "p1";
  event_type = payment_authorized_v1;
  event_version = 1;
  routing_key = payment_authorized_v1;
  payload = record {
    event_id = "e1";
    event_type = payment_authorized_v1;
    event_version = 1;
    source = "payment-service";
    correlation_id = "corr";
    occurred_at = 900;
    aggregate_type = "payment";
    aggregate_id = "p1";
    payload = end;
  };
  status = pending;
  attempts = 0;
  next_retry_at = none;
  last_error = none;
  created_at = 901;
  published_at = none;
}

-- Another request may run before each statement; here it changes nothing.
abbrev pub idle_tick : Tick
idle_tick = record { others = λ db. db; elapsed = 5; fault = healthy }
