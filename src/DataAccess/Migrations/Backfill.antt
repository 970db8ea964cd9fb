-- ===== src/DataAccess/Migrations/Backfill.antt =====
-- What the migration 005 of services/payment-service/src/bootstrap/knex/migrations makes of the rows.
use payment_orchestration_pl.Prelude.{
  ℕ, ◌+◌, String, ◌≡◌, refl, ap, none, some, List, [], ◌∷◌, arith, All,
}
use payment_orchestration_pl.Errors.{ok}
use payment_orchestration_pl.DataAccess.Rows.{IdempotencyStatus, IdempotencyRecord}
use payment_orchestration_pl.DataAccess.Migrations.{
  KeyRow, LeasedKeyRow, Schema004, add_lease, drop_lease, map_rows, check_rows,
}
use payment_orchestration_pl.DataAccess.Migrations.Constraints.{unchecked_key}
use payment_orchestration_pl.DataAccess.Migrations.Tokens.{
  add_token, updated_key, backfill, count_null, key_record, not_null, up_005, without_token,
}

-- The rows that 005 makes.
abbrev pub tokened :
    (uuid : ℕ → String) (drawn now : ℕ)
    → List (LeasedKeyRow IdempotencyStatus)
    → List IdempotencyRecord
tokened uuid drawn now [] = []
tokened uuid drawn now (r ∷ rs) =
    key_record (record r { row = updated_key now r.row }) (uuid drawn)
    ∷ tokened uuid (drawn + 1) now rs

count_null-backfill :
    (uuid : ℕ → String) (drawn now : ℕ) (rs : List (LeasedKeyRow IdempotencyStatus))
    → count_null (backfill uuid drawn now (add_token rs)) ≡ 0
unfolding count_null backfill
count_null-backfill uuid drawn now [] = refl
count_null-backfill uuid drawn now (r ∷ rs) = count_null-backfill uuid (drawn + 1) now rs

not_null-backfill :
    (uuid : ℕ → String) (drawn now : ℕ) (rs : List (LeasedKeyRow IdempotencyStatus))
    → check_rows not_null (backfill uuid drawn now (add_token rs))
      ≡ some (tokened uuid drawn now rs)
unfolding backfill
not_null-backfill uuid drawn now [] = refl
not_null-backfill uuid drawn now (r ∷ rs) =
    ground (arith, not_null-backfill uuid (drawn + 1) now rs)

pub up_005-tokened :
    (uuid : ℕ → String) (now : ℕ) (db : Schema004)
    → up_005 uuid now db
      ≡ ok (record {
        payments = db.payments;
        idempotency_keys = tokened uuid 0 now db.idempotency_keys;
      })
unfolding up_005
up_005-tokened uuid now db = ground (
  arith,
  count_null-backfill uuid 0 now db.idempotency_keys,
  not_null-backfill uuid 0 now db.idempotency_keys,
)

-- Back from the rows of 005.
pub tokened-back :
    (uuid : ℕ → String) (drawn now : ℕ) (rs : List (LeasedKeyRow IdempotencyStatus))
    → drop_lease (map_rows unchecked_key (map_rows without_token (tokened uuid drawn now rs)))
      ≡ map_rows (updated_key now) (drop_lease (map_rows unchecked_key rs))
tokened-back uuid drawn now [] = refl
tokened-back uuid drawn now (r ∷ rs) =
    ap (λ x. updated_key now (unchecked_key r).row ∷ x) (tokened-back uuid (drawn + 1) now rs)

pub drop_lease-add : (rs : List (KeyRow String)) → drop_lease (add_lease rs) ≡ rs
drop_lease-add [] = refl
drop_lease-add (r ∷ rs) = ap (λ x. r ∷ x) (drop_lease-add rs)

abbrev pub are_drawn : {A : Type 0} → (uuid : ℕ → String) (drawn : ℕ) → List A → List String
are_drawn uuid drawn [] = []
are_drawn uuid drawn (r ∷ rs) = uuid drawn ∷ are_drawn uuid (drawn + 1) rs

pub tokened-unleased :
    (uuid : ℕ → String) (drawn now : ℕ) (rs : List (LeasedKeyRow IdempotencyStatus))
    → All (λ r. r.processing_expires_at ≡ none) rs
    → All (λ r. r.processing_expires_at ≡ none) (tokened uuid drawn now rs)
tokened-unleased uuid drawn now [] h = tt
tokened-unleased uuid drawn now (r ∷ rs) h = (h.0, tokened-unleased uuid (drawn + 1) now rs h.1)

-- The tokens are the UUIDs in the order of the rows.
pub tokened-drawn :
    (uuid : ℕ → String) (drawn now : ℕ) (rs : List (LeasedKeyRow IdempotencyStatus))
    → map_rows (λ (r : IdempotencyRecord). r.processing_token) (tokened uuid drawn now rs)
      ≡ are_drawn uuid drawn (drop_lease (map_rows unchecked_key rs))
tokened-drawn uuid drawn now [] = refl
tokened-drawn uuid drawn now (r ∷ rs) =
    ap (λ x. uuid drawn ∷ x) (tokened-drawn uuid (drawn + 1) now rs)
