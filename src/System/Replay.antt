-- ===== src/System/Replay.antt =====
-- What can happen to an idempotency record.
use payment_orchestration_pl.Prelude.{
  String, ◌≡◌, refl, ap, ◌∙◌, Bool, false, some, List, arith, map_option, if◌then◌else◌,
}
use payment_orchestration_pl.Tables.{update_where}
use payment_orchestration_pl.Tables.Laws.{first_where-append, first_where-update_where}
use payment_orchestration_pl.DataAccess.Rows.{completed, IdempotencyRecord, Db}
use payment_orchestration_pl.DataAccess.Idempotency.{has_key, find_record}
use payment_orchestration_pl.System.{Reach}
use payment_orchestration_pl.System.Effects.{KeysEffect, Spares, Step-KeysEffect}

-- The record that a key reads, after an update of records.
find-update :
    (scope key : String) (p : IdempotencyRecord → Bool) (f : IdempotencyRecord → IdempotencyRecord)
    (ks : List IdempotencyRecord) (r : IdempotencyRecord)
    → Spares p f
    → find_record scope key ks ≡ some r
    → find_record scope key (update_where p f ks) ≡ some (if p r then f r else r)
find-update scope key p f ks r sp e =
    first_where-update_where (has_key scope key) p f ks
      (λ x. ground (arith, sp.same_scope x, sp.same_key x))
    ∙ ap (map_option (λ x. if p x then f x else x)) e

effect-completed :
    {ks ks' : List IdempotencyRecord} (scope key : String) (r : IdempotencyRecord)
    → KeysEffect ks ks'
    → find_record scope key ks ≡ some r
    → r.status ≡ completed
    → find_record scope key ks' ≡ some r
effect-completed scope key r (KeysEffect.same e) f h = rw e f
effect-completed scope key r (KeysEffect.insert x fresh e) f h = rw (e, first_where-append, f) refl
effect-completed {ks} scope key r (KeysEffect.update p g sp e) f h =
    let spared : p r ≡ false = sp.spares r (ground arith) in
    rw e (find-update scope key p g ks r sp f ∙ ap (λ b. some (if b then g r else r)) spared)

-- A completed idempotency record never changes again by any steps of the system.
pub Reach-completed :
    {db db' : Db} (scope key : String) (r : IdempotencyRecord)
    → find_record scope key db.idempotency_keys ≡ some r
    → r.status ≡ completed
    → Reach db db'
    → find_record scope key db'.idempotency_keys ≡ some r
Reach-completed scope key r f h Reach.here = f
Reach-completed scope key r f h (Reach.next q st) =
    effect-completed scope key r (Step-KeysEffect st) (Reach-completed scope key r f h q) h

-- The same claim on an operation: the same record of the same request.
pub record SameClaim (r r' : IdempotencyRecord) : Type 0 where
  pub same_id : r'.id ≡ r.id
  pub same_hash : r'.request_hash ≡ r.request_hash

effect-SameClaim :
    {ks ks' : List IdempotencyRecord} (scope key : String) (r : IdempotencyRecord)
    → KeysEffect ks ks'
    → find_record scope key ks ≡ some r
    → (r' : IdempotencyRecord) × (find_record scope key ks' ≡ some r') × SameClaim r r'
effect-SameClaim scope key r (KeysEffect.same e) f =
    (r, rw e f, record { same_id = refl; same_hash = refl })
effect-SameClaim scope key r (KeysEffect.insert x fresh e) f =
    (r, rw (e, first_where-append, f) refl, record { same_id = refl; same_hash = refl })
effect-SameClaim {ks} scope key r (KeysEffect.update p g sp e) f = (
  (if p r then g r else r),
  rw e (find-update scope key p g ks r sp f),
  record { same_id = ground (arith, sp.same_id r); same_hash = ground (arith, sp.same_hash r) },
)

-- A key that has a record keeps a record with the same id and the same request hash through any
-- steps of the system.
pub Reach-SameClaim :
    {db db' : Db} (scope key : String) (r : IdempotencyRecord)
    → find_record scope key db.idempotency_keys ≡ some r
    → Reach db db'
    → (r' : IdempotencyRecord) × (find_record scope key db'.idempotency_keys ≡ some r')
      × SameClaim r r'
Reach-SameClaim scope key r f Reach.here = (r, f, record { same_id = refl; same_hash = refl })
Reach-SameClaim scope key r f (Reach.next q st) =
    let (x, fx, c) = Reach-SameClaim scope key r f q in
    let (y, fy, c') = effect-SameClaim scope key x (Step-KeysEffect st) fx in
    (y, fy, record { same_id = c'.same_id ∙ c.same_id; same_hash = c'.same_hash ∙ c.same_hash })
