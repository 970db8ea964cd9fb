-- ===== src/DataAccess/Migrations/Latest.antt =====
-- All migrations of services/payment-service/src/bootstrap/knex/migrations behind 002, and back.
use payment_orchestration_pl.Prelude.{ℕ, String, []}
use payment_orchestration_pl.Errors.{Result, ok, err}
use payment_orchestration_pl.DataAccess.Rows.{Db}
use payment_orchestration_pl.DataAccess.Migrations.{Schema002, Schema005, up_003, down_003}
use payment_orchestration_pl.DataAccess.Migrations.Constraints.{up_004, down_004}
use payment_orchestration_pl.DataAccess.Migrations.Tokens.{up_005, down_005}

-- 006: a new table.
unfoldable pub up_006 : Schema005 → Db
up_006 db = record {
  payments = db.payments;
  idempotency_keys = db.idempotency_keys;
  outbox_events = [];
}

unfoldable pub down_006 : Db → Schema005
down_006 db = record { payments = db.payments; idempotency_keys = db.idempotency_keys }

-- The migrations from 003 on, and back.
unfoldable pub migrate : (uuid : ℕ → String) (now : ℕ) → Schema002 → Result Db
unfolding up_003 up_004 up_005 up_006
migrate uuid now db = elim (up_004 (up_003 db)) [
  | err e ↦ err e
  | ok db' ↦ elim (up_005 uuid now db') [ err e ↦ err e | ok db'' ↦ ok (up_006 db'') ]
]

unfoldable pub roll_back : Db → Schema002
unfolding down_003 down_004 down_005 down_006
roll_back db = down_003 (down_004 (down_005 (down_006 db)))
