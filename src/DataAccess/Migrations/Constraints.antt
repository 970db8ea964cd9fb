-- ===== src/DataAccess/Migrations/Constraints.antt =====
-- The migration 004 of services/payment-service/src/bootstrap/knex/migrations. Which constraint a row violates
-- is not told.
use payment_orchestration_pl.Prelude.{
  String, Bool, ◌&&◌, ◌||◌, Option, none, some, ◌==◌, ltb, if◌then◌else◌,
}
use payment_orchestration_pl.Errors.{Thrown, other_error, Result, ok, err}
use payment_orchestration_pl.DataAccess.Rows.{PaymentStatus, PaymentRecord, IdempotencyStatus}
use payment_orchestration_pl.DataAccess.Migrations.{
  Payment001, LeasedKeyRow, Schema003, Schema004, map_rows, check_rows,
}

-- `CHECK (status IN (…))` on both tables, and the other checks on `payments`. A text that is
-- admitted is read as its status.
abbrev pub payment_status : String → Option PaymentStatus
payment_status s =
    if s == "CREATED"
    then some PaymentStatus.created
    else if s == "AUTHORIZED"
    then some PaymentStatus.authorized
    else if s == "CAPTURED"
    then some PaymentStatus.captured
    else if s == "FAILED"
    then some PaymentStatus.failed
    else if s == "CAPTURE_FAILED"
    then some PaymentStatus.capture_failed
    else none

abbrev pub payment_status_text : PaymentStatus → String
payment_status_text PaymentStatus.created = "CREATED"
payment_status_text PaymentStatus.authorized = "AUTHORIZED"
payment_status_text PaymentStatus.captured = "CAPTURED"
payment_status_text PaymentStatus.failed = "FAILED"
payment_status_text PaymentStatus.capture_failed = "CAPTURE_FAILED"

abbrev pub key_status : String → Option IdempotencyStatus
key_status s =
    if s == "PROCESSING"
    then some IdempotencyStatus.processing
    else if s == "COMPLETED"
    then some IdempotencyStatus.completed
    else if s == "FAILED"
    then some IdempotencyStatus.failed
    else none

abbrev pub key_status_text : IdempotencyStatus → String
key_status_text IdempotencyStatus.processing = "PROCESSING"
key_status_text IdempotencyStatus.completed = "COMPLETED"
key_status_text IdempotencyStatus.failed = "FAILED"

abbrev pub is_currency : String → Bool
is_currency s = s == "TRY" || s == "USD" || s == "EUR"

abbrev pub checked_payment : Payment001 → PaymentStatus → PaymentRecord
checked_payment p status = record {
  id = p.id;
  merchant_id = p.merchant_id;
  amount_minor = p.amount_minor;
  currency = p.currency;
  status = status;
  provider = p.provider;
  provider_payment_id = p.provider_payment_id;
  failure_code = p.failure_code;
  failure_message = p.failure_message;
  authorized_at = p.authorized_at;
  captured_at = p.captured_at;
  failed_at = p.failed_at;
  created_at = p.created_at;
  updated_at = p.updated_at;
}

unfoldable pub check_payment : Payment001 → Option PaymentRecord
check_payment p = elim (payment_status p.status) [
  | none ↦ none
  | some status ↦
      if ltb 0 p.amount_minor && is_currency p.currency
      then some (checked_payment p status)
      else none
]

abbrev pub key_with_status : {A B : Type 0} → B → LeasedKeyRow A → LeasedKeyRow B
key_with_status status r = record {
  row = record {
    id = r.row.id;
    scope = r.row.scope;
    idempotency_key = r.row.idempotency_key;
    request_hash = r.row.request_hash;
    status = status;
    resource_type = r.row.resource_type;
    resource_id = r.row.resource_id;
    response_status_code = r.row.response_status_code;
    response_body = r.row.response_body;
    created_at = r.row.created_at;
    updated_at = r.row.updated_at;
    expires_at = r.row.expires_at;
  };
  processing_expires_at = r.processing_expires_at;
}

unfoldable pub check_key : LeasedKeyRow String → Option (LeasedKeyRow IdempotencyStatus)
check_key r = elim (key_status r.row.status) [
  | none ↦ none
  | some status ↦ some (key_with_status status r)
]

abbrev pub violated : Thrown
violated = other_error "check constraint is violated by some row"

unfoldable pub up_004 : Schema003 → Result Schema004
unfolding check_payment check_key
up_004 db = elim (check_rows check_payment db.payments) [
  | none ↦ err violated
  | some payments ↦ elim (check_rows check_key db.idempotency_keys) [
    | none ↦ err violated
    | some keys ↦ ok (record { payments = payments; idempotency_keys = keys })
  ]
]

abbrev pub payment_001 : PaymentRecord → Payment001
payment_001 p = record {
  id = p.id;
  merchant_id = p.merchant_id;
  amount_minor = p.amount_minor;
  currency = p.currency;
  status = payment_status_text p.status;
  provider = p.provider;
  provider_payment_id = p.provider_payment_id;
  failure_code = p.failure_code;
  failure_message = p.failure_message;
  authorized_at = p.authorized_at;
  captured_at = p.captured_at;
  failed_at = p.failed_at;
  created_at = p.created_at;
  updated_at = p.updated_at;
}

abbrev pub unchecked_key : LeasedKeyRow IdempotencyStatus → LeasedKeyRow String
unchecked_key r = key_with_status (key_status_text r.row.status) r

-- The constraints are dropped, and the rows stay.
unfoldable pub down_004 : Schema004 → Schema003
down_004 db = record {
  payments = map_rows payment_001 db.payments;
  idempotency_keys = map_rows unchecked_key db.idempotency_keys;
}
