-- ===== src/DataAccess/Rows.antt =====
-- The rows of the payment service's three tables (the record interfaces of data-access/*/*.ts),
-- and the database that holds them. A timestamp is its instant in milliseconds; `amount_minor` is
-- the number that the bigint column holds.
use payment_orchestration_pl.Prelude.{ℕ, String, Option, List}
use payment_orchestration_pl.Json.{Fields}

pub data PaymentStatus : Type 0 where
  created authorized failed captured capture_failed : PaymentStatus

pub record PaymentRecord : Type 0 where
  pub id : String
  pub merchant_id : String
  pub amount_minor : ℕ
  pub currency : String
  pub status : PaymentStatus
  pub provider : String
  pub provider_payment_id : Option String
  pub failure_code : Option String
  pub failure_message : Option String
  pub authorized_at : Option ℕ
  pub captured_at : Option ℕ
  pub failed_at : Option ℕ
  pub created_at : ℕ
  pub updated_at : ℕ

-- `PaymentDto` of services/payments/payments-service.ts.
pub record PaymentDto : Type 0 where
  pub id : String
  pub merchant_id : String
  pub amount_minor : ℕ
  pub currency : String
  pub status : PaymentStatus
  pub provider : String
  pub provider_payment_id : Option String
  pub failure_code : Option String
  pub failure_message : Option String
  pub captured_at : Option ℕ
  pub created_at : ℕ

-- What the jsonb column `response_body` gives back: an object, or a text that may itself be JSON.
pub data ResponseBody : Type 0 where
  dto : PaymentDto → ResponseBody
  text : String → ResponseBody

pub data IdempotencyStatus : Type 0 where
  processing completed failed : IdempotencyStatus

pub record IdempotencyRecord : Type 0 where
  pub id : String
  pub scope : String
  pub idempotency_key : String
  pub request_hash : String
  pub status : IdempotencyStatus
  pub resource_type : Option String
  pub resource_id : Option String
  pub response_status_code : Option ℕ
  pub response_body : Option ResponseBody
  pub created_at : ℕ
  pub updated_at : ℕ
  pub expires_at : Option ℕ
  pub processing_expires_at : Option ℕ
  pub processing_token : String

pub data PaymentEventType : Type 0 where
  payment_authorized_v1 payment_captured_v1 payment_failed_v1 : PaymentEventType

-- `event_version` is 1, `source` "payment-service" and `aggregate_type` "payment" in every envelope
-- that the outbox service builds.
pub record PaymentEventEnvelope : Type 0 where
  pub event_id : String
  pub event_type : PaymentEventType
  pub event_version : ℕ
  pub source : String
  pub correlation_id : String
  pub occurred_at : ℕ
  pub aggregate_type : String
  pub aggregate_id : String
  pub payload : Fields

pub data OutboxEventStatus : Type 0 where
  pending published failed : OutboxEventStatus

pub record OutboxEventRecord : Type 0 where
  pub id : String
  pub aggregate_type : String
  pub aggregate_id : String
  pub event_type : PaymentEventType
  pub event_version : ℕ
  pub routing_key : PaymentEventType
  pub payload : PaymentEventEnvelope
  pub status : OutboxEventStatus
  pub attempts : ℕ
  pub next_retry_at : Option ℕ
  pub last_error : Option String
  pub created_at : ℕ
  pub published_at : Option ℕ

pub record Db : Type 0 where
  pub payments : List PaymentRecord
  pub idempotency_keys : List IdempotencyRecord
  pub outbox_events : List OutboxEventRecord
