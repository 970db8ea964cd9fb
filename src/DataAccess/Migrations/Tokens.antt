-- ===== src/DataAccess/Migrations/Tokens.antt =====
-- The migration 005 of services/payment-service/src/bootstrap/knex/migrations.
use payment_orchestration_pl.Prelude.{
  ℕ, ◌+◌, String, Option, none, some, List, [], ◌∷◌, nat_eq, if◌then◌else◌,
}
use payment_orchestration_pl.Errors.{Thrown, other_error, Result, ok, err}
use payment_orchestration_pl.DataAccess.Rows.{IdempotencyStatus, IdempotencyRecord}
use payment_orchestration_pl.DataAccess.Migrations.{
  KeyRow, LeasedKeyRow, Schema004, Schema005, map_rows, check_rows,
}

-- A row while the migration runs.
pub record TokenKeyRow : Type 0 where
  pub leased : LeasedKeyRow IdempotencyStatus
  pub processing_token : Option String

abbrev pub add_token : List (LeasedKeyRow IdempotencyStatus) → List TokenKeyRow
add_token [] = []
add_token (r ∷ rs) = record { leased = r; processing_token = none } ∷ add_token rs

abbrev pub updated_key : {A : Type 0} → ℕ → KeyRow A → KeyRow A
updated_key now r = record r { updated_at = now }

abbrev pub with_token : String → ℕ → TokenKeyRow → TokenKeyRow
with_token token now r = record {
  leased = record r.leased { row = updated_key now r.leased.row };
  processing_token = some token;
}

-- The update of the rows where the column is NULL, with the trigger of 004 on `updated_at`; `uuid n`
-- is what the call number `n` of `gen_random_uuid` returns.
unfoldable pub backfill : (uuid : ℕ → String) (drawn now : ℕ) → List TokenKeyRow → List TokenKeyRow
backfill uuid drawn now [] = []
backfill uuid drawn now (r ∷ rs) =
    let drawn_on = backfill uuid (drawn + 1) now rs in
    let as_before = backfill uuid drawn now rs in
    elim r.processing_token [
      | none ↦ with_token (uuid drawn) now r ∷ drawn_on
      | some token ↦ r ∷ as_before
    ]

unfoldable pub count_null : List TokenKeyRow → ℕ
count_null [] = 0
count_null (r ∷ rs) = elim r.processing_token [
  | none ↦ count_null rs + 1
  | some token ↦ count_null rs
]

abbrev pub key_record : LeasedKeyRow IdempotencyStatus → String → IdempotencyRecord
key_record r token = record {
  id = r.row.id;
  scope = r.row.scope;
  idempotency_key = r.row.idempotency_key;
  request_hash = r.row.request_hash;
  status = r.row.status;
  resource_type = r.row.resource_type;
  resource_id = r.row.resource_id;
  response_status_code = r.row.response_status_code;
  response_body = r.row.response_body;
  created_at = r.row.created_at;
  updated_at = r.row.updated_at;
  expires_at = r.row.expires_at;
  processing_expires_at = r.processing_expires_at;
  processing_token = token;
}

-- `SET NOT NULL`, which fails on a NULL.
abbrev pub not_null : TokenKeyRow → Option IdempotencyRecord
not_null r = elim r.processing_token [ none ↦ none | some token ↦ some (key_record r.leased token) ]

abbrev pub left_null : Thrown
left_null = other_error "processing_token backfill left NULL idempotency rows"

abbrev pub contains_null : Thrown
contains_null = other_error "column processing_token contains null values"

unfoldable pub up_005 : (uuid : ℕ → String) (now : ℕ) → Schema004 → Result Schema005
unfolding backfill count_null
up_005 uuid now db =
    let rows = backfill uuid 0 now (add_token db.idempotency_keys) in
    if nat_eq (count_null rows) 0
    then elim (check_rows not_null rows) [
      | none ↦ err contains_null
      | some keys ↦ ok (record { payments = db.payments; idempotency_keys = keys })
    ]
    else err left_null

abbrev pub without_token : IdempotencyRecord → LeasedKeyRow IdempotencyStatus
without_token r = record {
  row = record {
    id = r.id;
    scope = r.scope;
    idempotency_key = r.idempotency_key;
    request_hash = r.request_hash;
    status = r.status;
    resource_type = r.resource_type;
    resource_id = r.resource_id;
    response_status_code = r.response_status_code;
    response_body = r.response_body;
    created_at = r.created_at;
    updated_at = r.updated_at;
    expires_at = r.expires_at;
  };
  processing_expires_at = r.processing_expires_at;
}

unfoldable pub down_005 : Schema005 → Schema004
down_005 db = record {
  payments = db.payments;
  idempotency_keys = map_rows without_token db.idempotency_keys;
}
