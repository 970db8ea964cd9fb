-- ===== src/DataAccess/Migrations/Blocked.antt =====
-- What the idempotency service makes of the rows that services/payment-service/src/bootstrap/knex/migrations
-- have found in the status PROCESSING.
use mathlib.Core.Path.{subst}
use payment_orchestration_pl.Prelude.{
  ℕ, String, ◌≡◌, refl, sym, ap, ◌∙◌, Bool, ◌&&◌, none, some, List, [], ◌∷◌, ◌==◌, arith, All,
  map_option, Option-cases, Bool-cases, ne_of_eq-false, inl, inr,
}
use payment_orchestration_pl.Errors.{ok, err}
use payment_orchestration_pl.Tables.{first_where}
use payment_orchestration_pl.DataAccess.Rows.{IdempotencyStatus, processing, IdempotencyRecord, Db}
use payment_orchestration_pl.DataAccess.Idempotency.{find_record, has_key}
use payment_orchestration_pl.DataAccess.Migrations.{
  KeyRow, Schema002, drop_lease, down_003, map_rows,
}
use payment_orchestration_pl.DataAccess.Migrations.Constraints.{
  key_status_text, unchecked_key, down_004,
}
use payment_orchestration_pl.DataAccess.Migrations.Tokens.{updated_key, without_token, down_005}
use payment_orchestration_pl.DataAccess.Migrations.Latest.{migrate, roll_back, down_006}
use payment_orchestration_pl.DataAccess.Migrations.Kept.{IsMigrated, migrate_ok-IsMigrated}
use payment_orchestration_pl.Exec.{World, head_fault, healthy, interleave}
use payment_orchestration_pl.Idempotency.Service.{
  IdempotencyService, StartInput, in_progress, get_existing_or_start,
}
use payment_orchestration_pl.Idempotency.Decisions.{decide_in_progress}

abbrev pub has_row_key : {S : Type 0} → String → String → KeyRow S → Bool
has_row_key scope key r = r.scope == scope && r.idempotency_key == key

-- A row as 002 had it.
abbrev row_002 : IdempotencyRecord → KeyRow String
row_002 r = (unchecked_key (without_token r)).row

rows_002 :
    (rs : List IdempotencyRecord)
    → drop_lease (map_rows unchecked_key (map_rows without_token rs)) ≡ map_rows row_002 rs
rows_002 [] = refl
rows_002 (r ∷ rs) = ap (λ x. row_002 r ∷ x) (rows_002 rs)

first_where-map :
    {A B : Type 0} (f : A → B) (p : B → Bool) (rows : List A)
    → first_where p (map_rows f rows) ≡ map_option f (first_where (λ a. p (f a)) rows)
unfolding first_where
first_where-map f p [] = refl
first_where-map f p (r ∷ rs) = ground (arith, first_where-map f p rs)

All-first_where :
    {A : Type 0} (P : A → Type 0) (p : A → Bool) (rows : List A) (a : A)
    → All P rows
    → first_where p rows ≡ some a
    → P a
unfolding first_where
All-first_where P p [] a h e = absurd (ground (arith, e))
All-first_where P p (r ∷ rs) a h e = elim (Bool-cases (p r)) [
  | inl k ↦ let same : r ≡ a = ground (arith, e, k) in subst P same h.0
  | inr k ↦ All-first_where P p rs a h.1 (ground (arith, e, k))
]

processing_text : (s : IdempotencyStatus) → key_status_text s ≡ "PROCESSING" → s ≡ processing
processing_text IdempotencyStatus.processing h = refl
processing_text IdempotencyStatus.completed h =
    absurd (ne_of_eq-false "COMPLETED" "PROCESSING" refl h)
processing_text IdempotencyStatus.failed h = absurd (ne_of_eq-false "FAILED" "PROCESSING" refl h)

-- The row of a key after the migrations, by the row before.
migrated_row :
    (uuid : ℕ → String) (now : ℕ) (db : Schema002) (db' : Db) (scope key : String)
    (r : KeyRow String)
    → IsMigrated uuid now db db'
    → first_where (has_row_key scope key) db.idempotency_keys ≡ some r
    → (q : IdempotencyRecord) × (find_record scope key db'.idempotency_keys ≡ some q)
      × (row_002 q ≡ updated_key now r)
unfolding roll_back down_003 down_004 down_005 down_006
migrated_row uuid now db db' scope key r m found =
    let rows : map_rows row_002 db'.idempotency_keys
        ≡ map_rows (updated_key now) db.idempotency_keys =
      sym (rows_002 db'.idempotency_keys) ∙ ap (λ (x : Schema002). x.idempotency_keys) m.rows in
    let e : map_option row_002 (find_record scope key db'.idempotency_keys)
        ≡ some (updated_key now r) =
      sym (first_where-map row_002 (has_row_key scope key) db'.idempotency_keys)
      ∙ ap (first_where (has_row_key scope key)) rows
      ∙ first_where-map (updated_key now) (has_row_key scope key) db.idempotency_keys
      ∙ ap (map_option (updated_key now)) found in
    elim (Option-cases (find_record scope key db'.idempotency_keys)) [
      | inl k ↦ absurd (ground (arith, e, k))
      | inr (q, k) ↦ (q, k, ground (arith, e, k))
    ]

-- An idempotency key whose row was PROCESSING before the migrations is blocked for the same
-- request: while its row is as they have left it, each retry is refused as in progress, however
-- late it comes.
pub migrate-in_progress :
    (s : IdempotencyService) (uuid : ℕ → String) (now : ℕ) (db : Schema002) (db' : Db)
    (r : KeyRow String) (input : StartInput) (w : World)
    → migrate uuid now db ≡ ok db'
    → first_where (has_row_key input.scope input.idempotency_key) db.idempotency_keys ≡ some r
    → r.status ≡ "PROCESSING"
    → r.request_hash ≡ input.request_hash
    → head_fault w.ticks ≡ healthy
    → find_record input.scope input.idempotency_key (interleave w).db.idempotency_keys
      ≡ find_record input.scope input.idempotency_key db'.idempotency_keys
    → get_existing_or_start s input w ≡ (err in_progress, interleave w)
migrate-in_progress s uuid now db db' r input w m found status same answers as_left =
    let k = migrate_ok-IsMigrated uuid now db db' m in
    let (q, fq, e) = migrated_row uuid now db db' input.scope input.idempotency_key r k found in
    let unleased : q.processing_expires_at ≡ none =
      All-first_where (λ (x : IdempotencyRecord). x.processing_expires_at ≡ none)
        (has_key input.scope input.idempotency_key) db'.idempotency_keys q k.unleased fq in
    decide_in_progress s input w q answers (as_left ∙ fq)
      (ap (λ (x : KeyRow String). x.request_hash) e ∙ same)
      (processing_text q.status (ap (λ (x : KeyRow String). x.status) e ∙ status))
      (ground (arith, unleased))
