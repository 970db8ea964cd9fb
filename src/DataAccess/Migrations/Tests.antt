-- ===== src/DataAccess/Migrations/Tests.antt =====
-- The migrations on concrete tables.
use payment_orchestration_pl.Prelude.{◌≡◌, ◌↔◌, refl, String, none, some, arith, [], ◌∷◌}
use payment_orchestration_pl.Errors.{ok, err}
use payment_orchestration_pl.Tables.{first_where}
use payment_orchestration_pl.DataAccess.Rows.{PaymentStatus, IdempotencyStatus, Db}
use payment_orchestration_pl.DataAccess.Migrations.{Payment001, KeyRow, Schema002, up_003}
use payment_orchestration_pl.DataAccess.Migrations.Constraints.{
  violated, check_payment, check_key, up_004,
}
use payment_orchestration_pl.DataAccess.Migrations.Tokens.{backfill, count_null, up_005}
use payment_orchestration_pl.DataAccess.Migrations.Latest.{migrate, up_006}
use payment_orchestration_pl.DataAccess.Migrations.Kept.{
  AreAdmitted, IsMigrated, migrate-IsMigrated,
}
use payment_orchestration_pl.DataAccess.Migrations.Blocked.{has_row_key, migrate-in_progress}
use payment_orchestration_pl.Exec.{interleave}
use payment_orchestration_pl.Idempotency.Service.{StartInput, in_progress, get_existing_or_start}
use payment_orchestration_pl.Samples.{sample_service, sample_uuid, quiet_world}

abbrev old_payment : Payment001
old_payment = record {
  id = "p1";
  merchant_id = "m1";
  amount_minor = 1250;
  currency = "TRY";
  status = "AUTHORIZED";
  provider = "mock-provider";
  provider_payment_id = some "mock_p1";
  failure_code = none;
  failure_message = none;
  authorized_at = some 900;
  captured_at = none;
  failed_at = none;
  created_at = 901;
  updated_at = 901;
}

abbrev old_key : KeyRow String
old_key = record {
  id = "k1";
  scope = "payments:create:m1";
  idempotency_key = "key";
  request_hash = "hash";
  status = "PROCESSING";
  resource_type = some "payment";
  resource_id = some "p1";
  response_status_code = none;
  response_body = none;
  created_at = 901;
  updated_at = 901;
  expires_at = none;
}

abbrev old_db : Schema002
old_db = record { payments = old_payment ∷ []; idempotency_keys = old_key ∷ [] }

abbrev new_db : Db
new_db = record {
  payments =
      record {
        id = "p1";
        merchant_id = "m1";
        amount_minor = 1250;
        currency = "TRY";
        status = PaymentStatus.authorized;
        provider = "mock-provider";
        provider_payment_id = some "mock_p1";
        failure_code = none;
        failure_message = none;
        authorized_at = some 900;
        captured_at = none;
        failed_at = none;
        created_at = 901;
        updated_at = 901;
      }
      ∷ [];
  idempotency_keys =
      record {
        id = "k1";
        scope = "payments:create:m1";
        idempotency_key = "key";
        request_hash = "hash";
        status = IdempotencyStatus.processing;
        resource_type = some "payment";
        resource_id = some "p1";
        response_status_code = none;
        response_body = none;
        created_at = 901;
        updated_at = 950;
        expires_at = none;
        processing_expires_at = none;
        processing_token = "u0";
      }
      ∷ [];
  outbox_events = [];
}

is_migrated : migrate sample_uuid 950 old_db ≡ ok new_db
unfolding migrate up_003 up_004 check_payment check_key up_005 backfill count_null up_006
is_migrated = refl

-- A status that the constraint does not know.
is_refused :
    migrate sample_uuid 950
      (record old_db { payments = record old_payment { status = "PENDING" } ∷ [] })
    ≡ err violated
unfolding migrate up_003 up_004 check_payment check_key
is_refused = refl

old_db-AreAdmitted : AreAdmitted old_db
old_db-AreAdmitted = (
  (
    record {
      status = PaymentStatus.authorized;
      has_status = refl;
      amount = omega arith;
      currency = refl;
    },
    tt,
  ),
  ((IdempotencyStatus.processing, refl), tt),
)

migrate-IsMigrated_example :
    AreAdmitted old_db
    ↔ ((db : Db) × (migrate sample_uuid 950 old_db ≡ ok db) × IsMigrated sample_uuid 950 old_db db)
migrate-IsMigrated_example = migrate-IsMigrated sample_uuid 950 old_db

abbrev retry : StartInput
retry = record {
  scope = "payments:create:m1";
  idempotency_key = "key";
  request_hash = "hash";
  resource_type = "payment";
  resource_id = "p2";
}

finds_row :
    first_where (has_row_key "payments:create:m1" "key") old_db.idempotency_keys ≡ some old_key
unfolding first_where
finds_row = refl

migrate-in_progress_example :
    get_existing_or_start sample_service.idempotency_service retry (quiet_world new_db)
    ≡ (err in_progress, interleave (quiet_world new_db))
migrate-in_progress_example =
    migrate-in_progress sample_service.idempotency_service sample_uuid 950 old_db new_db old_key
      retry (quiet_world new_db) is_migrated finds_row refl refl refl refl
