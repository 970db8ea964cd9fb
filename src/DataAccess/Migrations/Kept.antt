-- ===== src/DataAccess/Migrations/Kept.antt =====
-- What the migrations of services/payment-service/src/bootstrap/knex/migrations keep of the rows.
use mathlib.Core.Path.{subst}
use payment_orchestration_pl.Prelude.{
  ℕ, String, ◌≡◌, ◌↔◌, ◌⊎◌, refl, ap, ◌∙◌, none, List, [], ◌∷◌, arith, All, Option-cases, inl, inr,
}
use payment_orchestration_pl.Errors.{Thrown, Result, ok, err}
use payment_orchestration_pl.DataAccess.Rows.{IdempotencyRecord, Db}
use payment_orchestration_pl.DataAccess.Migrations.{
  KeyRow, Schema002, Schema003, Schema004, add_lease, up_003, drop_lease, down_003, map_rows,
  check_rows,
}
use payment_orchestration_pl.DataAccess.Migrations.Constraints.{
  check_payment, check_key, up_004, payment_001, unchecked_key, down_004,
}
use payment_orchestration_pl.DataAccess.Migrations.Tokens.{updated_key, down_005}
use payment_orchestration_pl.DataAccess.Migrations.Admission.{
  check_rows-some, some-check_rows, IsAdmittedPayment, IsAdmittedKey, IsAdmittedRow,
  check_payment-some, some-check_payment, check_key-some, some-check_key,
}
use payment_orchestration_pl.DataAccess.Migrations.Backfill.{
  tokened, up_005-tokened, tokened-back, drop_lease-add, tokened-unleased, tokened-drawn, are_drawn,
}
use payment_orchestration_pl.DataAccess.Migrations.Latest.{up_006, down_006, migrate, roll_back}

module _ {A B : Type 0} (f : A → B) (P : B → Type 0) where
  All-map : (rows : List A) → All P (map_rows f rows) → All (λ a. P (f a)) rows
  All-map [] h = tt
  All-map (r ∷ rs) h = (h.0, All-map rs h.1)

add_lease-unleased :
    (rs : List (KeyRow String)) → All (λ r. r.processing_expires_at ≡ none) (add_lease rs)
add_lease-unleased [] = tt
add_lease-unleased (r ∷ rs) = (refl, add_lease-unleased rs)

IsAdmittedRow-add_lease :
    (rs : List (KeyRow String)) → All IsAdmittedKey rs → All IsAdmittedRow (add_lease rs)
IsAdmittedRow-add_lease [] h = tt
IsAdmittedRow-add_lease (r ∷ rs) h = (h.0, IsAdmittedRow-add_lease rs h.1)

add_lease-IsAdmittedKey :
    (rs : List (KeyRow String)) → All IsAdmittedRow (add_lease rs) → All IsAdmittedKey rs
add_lease-IsAdmittedKey [] h = tt
add_lease-IsAdmittedKey (r ∷ rs) h = (h.0, add_lease-IsAdmittedKey rs h.1)

abbrev pub AreAdmitted : Schema002 → Type 0
AreAdmitted db = All IsAdmittedPayment db.payments × All IsAdmittedKey db.idempotency_keys

-- What of the rows of 002 the migrated database has.
pub record IsMigrated (uuid : ℕ → String) (now : ℕ) (db : Schema002) (db' : Db) : Type 0 where
  pub rows :
      roll_back db'
      ≡ record db { idempotency_keys = map_rows (updated_key now) db.idempotency_keys }
  pub unleased : All (λ r. r.processing_expires_at ≡ none) db'.idempotency_keys
  pub tokens :
      map_rows (λ (r : IdempotencyRecord). r.processing_token) db'.idempotency_keys
      ≡ are_drawn uuid 0 db.idempotency_keys
  pub no_events : db'.outbox_events ≡ []

AreAdmitted-up_004 :
    (db : Schema002)
    → AreAdmitted db
    → (db' : Schema004) × (up_004 (up_003 db) ≡ ok db') × (down_004 db' ≡ up_003 db)
unfolding up_004 up_003 down_004
AreAdmitted-up_004 db (hp, hk) =
    let (ps, ep, bp) =
      check_rows-some check_payment payment_001 IsAdmittedPayment check_payment-some
        some-check_payment db.payments hp in
    let (ks, ek, bk) =
      check_rows-some check_key unchecked_key IsAdmittedRow check_key-some some-check_key
        (add_lease db.idempotency_keys) (IsAdmittedRow-add_lease db.idempotency_keys hk) in
    (record { payments = ps; idempotency_keys = ks }, ground (arith, ep, ek), cc (bp, bk))

up_004-AreAdmitted :
    (db : Schema002) (db' : Schema004) → up_004 (up_003 db) ≡ ok db' → AreAdmitted db
unfolding up_004 up_003
up_004-AreAdmitted db db' h = elim (Option-cases (check_rows check_payment db.payments)) [
  | inl e ↦ absurd (ground (arith, h, e))
  | inr (ps, ep) ↦ elim (Option-cases (check_rows check_key (add_lease db.idempotency_keys))) [
    | inl e ↦ absurd (ground (arith, h, ep, e))
    | inr (ks, ek) ↦ (
      some-check_rows check_payment payment_001 IsAdmittedPayment check_payment-some
          some-check_payment db.payments ps ep,
      add_lease-IsAdmittedKey db.idempotency_keys (
          some-check_rows check_key unchecked_key IsAdmittedRow check_key-some some-check_key
            (add_lease db.idempotency_keys) ks ek),
    )
  ]
]

-- The database that 005 and 006 make of one that 004 has admitted.
abbrev migrated : (uuid : ℕ → String) (now : ℕ) → Schema004 → Db
migrated uuid now db =
    up_006
      (record { payments = db.payments; idempotency_keys = tokened uuid 0 now db.idempotency_keys })

migrated-IsMigrated :
    (uuid : ℕ → String) (now : ℕ) (db : Schema002) (db' : Schema004)
    → map_rows payment_001 db'.payments ≡ db.payments
    → map_rows unchecked_key db'.idempotency_keys ≡ add_lease db.idempotency_keys
    → IsMigrated uuid now db (migrated uuid now db')
unfolding up_006 roll_back down_003 down_004 down_005 down_006
migrated-IsMigrated uuid now db db' hp hk =
    let plain : drop_lease (map_rows unchecked_key db'.idempotency_keys) ≡ db.idempotency_keys =
      ap drop_lease hk ∙ drop_lease-add db.idempotency_keys in
    record {
      rows =
          let kept =
            tokened-back uuid 0 now db'.idempotency_keys ∙ ap (map_rows (updated_key now)) plain in
          cc (hp, kept);
      unleased = tokened-unleased uuid 0 now db'.idempotency_keys (
          All-map unchecked_key (λ r. r.processing_expires_at ≡ none) db'.idempotency_keys
            (rw hk (add_lease-unleased db.idempotency_keys)));
      tokens = tokened-drawn uuid 0 now db'.idempotency_keys ∙ ap (are_drawn uuid 0) plain;
      no_events = refl;
    }

AreAdmitted-migrate :
    (uuid : ℕ → String) (now : ℕ) (db : Schema002)
    → AreAdmitted db
    → (db' : Db) × (migrate uuid now db ≡ ok db') × IsMigrated uuid now db db'
unfolding migrate up_003 down_004
AreAdmitted-migrate uuid now db h =
    let (db', e, b) = AreAdmitted-up_004 db h in
    (
      migrated uuid now db',
      ground (arith, e, up_005-tokened uuid now db'),
      migrated-IsMigrated uuid now db db' (ap (λ (x : Schema003). x.payments) b)
          (ap (λ (x : Schema003). x.idempotency_keys) b),
    )

Result-cases :
    (r : Result Schema004) → ((db : Schema004) × (r ≡ ok db)) ⊎ ((e : Thrown) × (r ≡ err e))
Result-cases (ok db) = inl (db, refl)
Result-cases (err e) = inr (e, refl)

migrate-AreAdmitted :
    (uuid : ℕ → String) (now : ℕ) (db : Schema002) (db' : Db)
    → migrate uuid now db ≡ ok db'
    → AreAdmitted db
unfolding migrate
migrate-AreAdmitted uuid now db db' h = elim (Result-cases (up_004 (up_003 db))) [
  | inl (db'', e) ↦ up_004-AreAdmitted db db'' e
  | inr (x, e) ↦ absurd (ground (arith, h, e))
]

-- And there is only this result.
pub migrate_ok-IsMigrated :
    (uuid : ℕ → String) (now : ℕ) (db : Schema002) (db' : Db)
    → migrate uuid now db ≡ ok db'
    → IsMigrated uuid now db db'
migrate_ok-IsMigrated uuid now db db' h =
    let (x, e, m) = AreAdmitted-migrate uuid now db (migrate-AreAdmitted uuid now db db' h) in
    let same : x ≡ db' = ground (arith, h, e) in subst (IsMigrated uuid now db) same m

-- The migrations behind 002 succeed exactly on tables whose rows meet the constraints of 004; no
-- count of rows without a token stops them. The rows then carry no lease and the drawn tokens, and
-- are otherwise as before, except for `updated_at` of the idempotency keys: rolling back gives the
-- tables of 002 with it.
pub migrate-IsMigrated :
    (uuid : ℕ → String) (now : ℕ) (db : Schema002)
    → AreAdmitted db ↔ ((db' : Db) × (migrate uuid now db ≡ ok db') × IsMigrated uuid now db db')
migrate-IsMigrated uuid now db =
    (AreAdmitted-migrate uuid now db, (λ x. migrate-AreAdmitted uuid now db x.0 x.1))
