-- ===== src/DataAccess/Migrations.antt =====
-- services/payment-service/src/bootstrap/knex/migrations, on tables that have rows already. The number
-- of a migration names the schema that it leads to. A failed migration changes nothing.
pub mod Constraints
pub mod Tokens
pub mod Latest
pub mod Admission
pub mod Backfill
pub mod Kept
pub mod Blocked
mod Tests
use payment_orchestration_pl.Prelude.{
  ℕ, ◌+◌, String, Bool, true, false, ◌&&◌, ◌||◌, Option, none, some, List, [], ◌∷◌, ◌==◌, ltb,
  nat_eq, if◌then◌else◌,
}
use payment_orchestration_pl.DataAccess.Rows.{
  PaymentStatus, PaymentRecord, IdempotencyStatus, IdempotencyRecord, ResponseBody, Db,
}

-- A row of `payments` by 001, whose status is a text.
pub record Payment001 : Type 0 where
  pub id : String
  pub merchant_id : String
  pub amount_minor : ℕ
  pub currency : String
  pub status : String
  pub provider : String
  pub provider_payment_id : Option String
  pub failure_code : Option String
  pub failure_message : Option String
  pub authorized_at : Option ℕ
  pub captured_at : Option ℕ
  pub failed_at : Option ℕ
  pub created_at : ℕ
  pub updated_at : ℕ

-- A row of `idempotency_keys` by 002; its status is a text, and one of three from 004 on.
pub record KeyRow (Status : Type 0) : Type 0 where
  pub id : String
  pub scope : String
  pub idempotency_key : String
  pub request_hash : String
  pub status : Status
  pub resource_type : Option String
  pub resource_id : Option String
  pub response_status_code : Option ℕ
  pub response_body : Option ResponseBody
  pub created_at : ℕ
  pub updated_at : ℕ
  pub expires_at : Option ℕ

-- A row by 003.
pub record LeasedKeyRow (Status : Type 0) : Type 0 where
  pub row : KeyRow Status
  pub processing_expires_at : Option ℕ

pub record Schema002 : Type 0 where
  pub payments : List Payment001
  pub idempotency_keys : List (KeyRow String)

pub record Schema003 : Type 0 where
  pub payments : List Payment001
  pub idempotency_keys : List (LeasedKeyRow String)

pub record Schema004 : Type 0 where
  pub payments : List PaymentRecord
  pub idempotency_keys : List (LeasedKeyRow IdempotencyStatus)

pub record Schema005 : Type 0 where
  pub payments : List PaymentRecord
  pub idempotency_keys : List IdempotencyRecord

-- 003: a new column is NULL in every row.
abbrev pub add_lease : List (KeyRow String) → List (LeasedKeyRow String)
add_lease [] = []
add_lease (r ∷ rs) = record { row = r; processing_expires_at = none } ∷ add_lease rs

unfoldable pub up_003 : Schema002 → Schema003
up_003 db = record { payments = db.payments; idempotency_keys = add_lease db.idempotency_keys }

abbrev pub drop_lease : List (LeasedKeyRow String) → List (KeyRow String)
drop_lease [] = []
drop_lease (r ∷ rs) = r.row ∷ drop_lease rs

unfoldable pub down_003 : Schema003 → Schema002
down_003 db = record { payments = db.payments; idempotency_keys = drop_lease db.idempotency_keys }

-- A table whose rows are all admitted.
abbrev pub check_rows : {A B : Type 0} → (A → Option B) → List A → Option (List B)
check_rows check [] = some []
check_rows check (r ∷ rs) =
    let rest = check_rows check rs in
    elim (check r) [
      | none ↦ none
      | some r' ↦ elim rest [ none ↦ none | some rs' ↦ some (r' ∷ rs') ]
    ]

abbrev pub map_rows : {A B : Type 0} → (A → B) → List A → List B
map_rows f [] = []
map_rows f (r ∷ rs) = f r ∷ map_rows f rs
