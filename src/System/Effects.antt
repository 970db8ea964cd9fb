-- ===== src/System/Effects.antt =====
-- What a step does to each of the three tables.
use payment_orchestration_pl.Prelude.{
  ℕ, String, ◌≡◌, refl, ◌∙◌, ap, Bool, true, false, none, some, List, [], ◌∷◌, ◌++◌, arith, inl,
  inr, Option-cases, map_option, eq_iff,
}
use payment_orchestration_pl.Tables.{first_where, update_where}
use payment_orchestration_pl.Tables.Laws.{first_where_sound}
use payment_orchestration_pl.DataAccess.Rows.{
  PaymentStatus, authorized, PaymentRecord, IdempotencyRecord, OutboxEventRecord, ResponseBody, Db,
}
use payment_orchestration_pl.DataAccess.Payments.{
  find_payment, has_id, inserted_payment, is_updatable, with_status,
}
use payment_orchestration_pl.DataAccess.Idempotency.{
  TryInsertProcessingInput, MarkCompletedInput, has_record_id, is_owned, with_response, find_record,
  is_completed, processing_record, try_insert_processing, reactivate_failed,
  takeover_expired_processing, mark_failed,
}
use payment_orchestration_pl.DataAccess.Outbox.{
  is_pending_event, as_published, as_publish_failed, mark_published, mark_publish_failed,
}
use payment_orchestration_pl.Exec.{World}
use payment_orchestration_pl.Providers.Contract.{AuthorizePaymentResult, CapturePaymentResult}
use payment_orchestration_pl.Payments.Commands.{
  CreatePaymentCommand, CapturePaymentCommand, new_payment, capture_update,
}
use payment_orchestration_pl.Idempotency.Service.{Started}
use payment_orchestration_pl.Payments.Commits.Steps.{authorization_event, capture_event}
use payment_orchestration_pl.Payments.Commits.Create.{CommitsCreate, persist_authorization-Commits}
use payment_orchestration_pl.Payments.Commits.Capture.{
  CommitsCapture, capture_in_transaction-Commits,
}
use payment_orchestration_pl.System.{Step}

-- An update of idempotency records that leaves completed ones, and every record's key, alone.
pub record Spares (p : IdempotencyRecord → Bool) (f : IdempotencyRecord → IdempotencyRecord)
    : Type 0 where
  pub spares : (r : IdempotencyRecord) → is_completed r.status ≡ true → p r ≡ false
  pub same_scope : (r : IdempotencyRecord) → (f r).scope ≡ r.scope
  pub same_key : (r : IdempotencyRecord) → (f r).idempotency_key ≡ r.idempotency_key
  pub same_hash : (r : IdempotencyRecord) → (f r).request_hash ≡ r.request_hash
  pub same_id : (r : IdempotencyRecord) → (f r).id ≡ r.id

pub data KeysEffect (ks ks' : List IdempotencyRecord) : Type 0 where
  same : ks' ≡ ks → KeysEffect ks ks'
  insert :
      (r : IdempotencyRecord)
      → find_record r.scope r.idempotency_key ks ≡ none
      → ks' ≡ ks ++ r ∷ []
      → KeysEffect ks ks'
  update :
      (p : IdempotencyRecord → Bool) (f : IdempotencyRecord → IdempotencyRecord)
      → Spares p f
      → ks' ≡ update_where p f ks
      → KeysEffect ks ks'

-- The payments with the outbox: they change together.
pub data PaymentsEffect (db db' : Db) : Type 0 where
  same : db'.payments ≡ db.payments → db'.outbox_events ≡ db.outbox_events → PaymentsEffect db db'
  create :
      (p : PaymentRecord) (e : OutboxEventRecord) (answer : AuthorizePaymentResult)
      → find_payment p.id db.payments ≡ none
      → p.status ≡ elim answer [
        | AuthorizePaymentResult.approved _ _ ↦ authorized
        | AuthorizePaymentResult.declined _ _ _ _ ↦ PaymentStatus.failed
      ]
      → e.aggregate_id ≡ p.id
      → e.event_type ≡ authorization_event answer
      → db'.payments ≡ db.payments ++ p ∷ []
      → db'.outbox_events ≡ db.outbox_events ++ e ∷ []
      → PaymentsEffect db db'
  capture :
      (p : PaymentRecord) (e : OutboxEventRecord) (answer : CapturePaymentResult) (at now : ℕ)
      → find_payment p.id db.payments ≡ some p
      → p.status ≡ authorized
      → e.aggregate_id ≡ p.id
      → e.event_type ≡ capture_event answer
      → db'.payments
        ≡ update_where
            (is_updatable p.id)
            (with_status (capture_update p.id answer at) now)
            db.payments
      → db'.outbox_events ≡ db.outbox_events ++ e ∷ []
      → PaymentsEffect db db'
  publish :
      (p : OutboxEventRecord → Bool) (f : OutboxEventRecord → OutboxEventRecord)
      → ((e : OutboxEventRecord) → (f e).aggregate_id ≡ e.aggregate_id)
      → ((e : OutboxEventRecord) → (f e).event_type ≡ e.event_type)
      → db'.payments ≡ db.payments
      → db'.outbox_events ≡ update_where p f db.outbox_events
      → PaymentsEffect db db'

start-KeysEffect :
    (input : TryInsertProcessingInput) (id : String) (now : ℕ) (db : Db)
    → KeysEffect db.idempotency_keys (try_insert_processing input id now db).1.idempotency_keys
unfolding try_insert_processing
start-KeysEffect input id now db =
    elim (Option-cases (find_record input.scope input.idempotency_key db.idempotency_keys)) [
      | inr (r, e) ↦ KeysEffect.same (ground arith)
      | inl e ↦ elim (Option-cases (first_where (has_record_id id) db.idempotency_keys)) [
        | inr (r, e') ↦ KeysEffect.same (ground arith)
        | inl e' ↦ KeysEffect.insert (processing_record input id now) e (ground arith)
      ]
    ]

Spares-owned :
    (id token : String) (input : MarkCompletedInput) (now : ℕ)
    → Spares (is_owned id token) (with_response input now)
Spares-owned id token input now = record {
  spares = λ r h. ground arith;
  same_scope = λ r. refl;
  same_key = λ r. refl;
  same_hash = λ r. refl;
  same_id = λ r. refl;
}

pub Step-KeysEffect :
    {db db' : Db} → Step db db' → KeysEffect db.idempotency_keys db'.idempotency_keys
unfolding reactivate_failed takeover_expired_processing mark_failed mark_published
    mark_publish_failed
Step-KeysEffect {db} (Step.start input id now e) = rw e (start-KeysEffect input id now db)
Step-KeysEffect (Step.reactivate id hash expires token now e) =
    KeysEffect.update _ _
      (record {
        spares = λ r h. ground arith;
        same_scope = λ r. refl;
        same_key = λ r. refl;
        same_hash = λ r. refl;
        same_id = λ r. refl;
      })
      (ap (λ (x : Db). x.idempotency_keys) e)
Step-KeysEffect (Step.take_over id hash expires token now e) =
    KeysEffect.update _ _
      (record {
        spares = λ r h. ground arith;
        same_scope = λ r. refl;
        same_key = λ r. refl;
        same_hash = λ r. refl;
        same_id = λ r. refl;
      })
      (ap (λ (x : Db). x.idempotency_keys) e)
Step-KeysEffect (Step.fail input now e) =
    KeysEffect.update _ _
      (record {
        spares = λ r h. ground arith;
        same_scope = λ r. refl;
        same_key = λ r. refl;
        same_hash = λ r. refl;
        same_id = λ r. refl;
      })
      (ap (λ (x : Db). x.idempotency_keys) e)
Step-KeysEffect (Step.create s c d answer now w w' b e e₁ e₂) =
    let k = (persist_authorization-Commits s c d answer now w).yields b w' e in
    KeysEffect.update _ _ (Spares-owned d.record_id d.processing_token k.input w.db_now)
      (ground (arith, k.db))
Step-KeysEffect (Step.capture s c d w w' b e e₁ e₂) =
    let k = (capture_in_transaction-Commits s c d w).yields b w' e in
    KeysEffect.update _ _ (Spares-owned d.record_id d.processing_token k.input w.db_now)
      (ground (arith, k.db))
Step-KeysEffect (Step.publish id now e) = KeysEffect.same (ap (λ (x : Db). x.idempotency_keys) e)
Step-KeysEffect (Step.fail_publish input now e) =
    KeysEffect.same (ap (λ (x : Db). x.idempotency_keys) e)

has_id-eq : (id : String) (p : PaymentRecord) → has_id id p ≡ true → p.id ≡ id
has_id-eq id p h = (eq_iff p.id id).0 h

create-PaymentsEffect :
    (c : CreatePaymentCommand) (d : Started) (answer : AuthorizePaymentResult) (now : ℕ)
    (w w' : World) (b : ResponseBody)
    → CommitsCreate c d answer now w b w'
    → PaymentsEffect w.db w'.db
create-PaymentsEffect c d (AuthorizePaymentResult.approved x y) now w w' b k =
    PaymentsEffect.create
      (inserted_payment (new_payment d.resource_id c (AuthorizePaymentResult.approved x y) now)
        w.db_now)
      k.event (AuthorizePaymentResult.approved x y) k.fresh refl k.about k.of_type
      (ap (λ (x : Db). x.payments) k.db) (ap (λ (x : Db). x.outbox_events) k.db)
create-PaymentsEffect c d (AuthorizePaymentResult.declined x y z t) now w w' b k =
    PaymentsEffect.create
      (inserted_payment (new_payment d.resource_id c (AuthorizePaymentResult.declined x y z t) now)
        w.db_now)
      k.event (AuthorizePaymentResult.declined x y z t) k.fresh refl k.about k.of_type
      (ap (λ (x : Db). x.payments) k.db) (ap (λ (x : Db). x.outbox_events) k.db)

-- The row that the conditional update reports carries the id that was asked for.
updated_id :
    (id : String) (answer : CapturePaymentResult) (at now : ℕ) (rows : List PaymentRecord)
    (p : PaymentRecord)
    → map_option
        (with_status (capture_update id answer at) now)
        (first_where (is_updatable id) rows)
      ≡ some p
    → p.id ≡ id
updated_id id answer at now rows p h = elim (Option-cases (first_where (is_updatable id) rows)) [
  | inl e ↦ ground arith
  | inr (r, e) ↦ ground (arith, first_where_sound (is_updatable id) rows r e, eq_iff r.id id)
]

capture-PaymentsEffect :
    (c : CapturePaymentCommand) (d : Started) (w w' : World) (b : ResponseBody)
    → CommitsCapture c d w b w'
    → PaymentsEffect w.db w'.db
capture-PaymentsEffect c d w w' b k =
    let same_id : k.payment.id ≡ c.payment_id =
      has_id-eq c.payment_id k.payment
        (first_where_sound (has_id c.payment_id) w.db.payments k.payment k.found) in
    PaymentsEffect.capture k.payment k.event k.answer k.at w.db_now
      (ap (λ x. find_payment x w.db.payments) same_id ∙ k.found) k.capturable
      (k.about ∙ updated_id k.payment.id k.answer k.at w.db_now w.db.payments k.updated k.row)
      k.of_type (ap (λ (x : Db). x.payments) k.db) (ap (λ (x : Db). x.outbox_events) k.db)

start-PaymentsEffect :
    (input : TryInsertProcessingInput) (id : String) (now : ℕ) (db : Db)
    → PaymentsEffect db (try_insert_processing input id now db).1
unfolding try_insert_processing
start-PaymentsEffect input id now db = PaymentsEffect.same (ground arith) (ground arith)

transport_effect : {a b a' b' : Db} → a ≡ a' → b ≡ b' → PaymentsEffect a b → PaymentsEffect a' b'
transport_effect {a} {b} e₁ e₂ k = rw (← e₁, ← e₂) k

pub Step-PaymentsEffect : {db db' : Db} → Step db db' → PaymentsEffect db db'
unfolding reactivate_failed takeover_expired_processing mark_failed mark_published
    mark_publish_failed
Step-PaymentsEffect {db} (Step.start input id now e) = rw e (start-PaymentsEffect input id now db)
Step-PaymentsEffect (Step.reactivate id hash expires token now e) =
    PaymentsEffect.same (ap (λ (x : Db). x.payments) e) (ap (λ (x : Db). x.outbox_events) e)
Step-PaymentsEffect (Step.take_over id hash expires token now e) =
    PaymentsEffect.same (ap (λ (x : Db). x.payments) e) (ap (λ (x : Db). x.outbox_events) e)
Step-PaymentsEffect (Step.fail input now e) =
    PaymentsEffect.same (ap (λ (x : Db). x.payments) e) (ap (λ (x : Db). x.outbox_events) e)
Step-PaymentsEffect (Step.create s c d answer now w w' b e e₁ e₂) = transport_effect e₁ e₂ (
    create-PaymentsEffect c d answer now w w' b
      ((persist_authorization-Commits s c d answer now w).yields b w' e))
Step-PaymentsEffect (Step.capture s c d w w' b e e₁ e₂) =
    transport_effect e₁ e₂
      (capture-PaymentsEffect c d w w' b ((capture_in_transaction-Commits s c d w).yields b w' e))
Step-PaymentsEffect (Step.publish id now e) =
    PaymentsEffect.publish (is_pending_event id) (as_published now) (λ x. refl) (λ x. refl)
      (ap (λ (x : Db). x.payments) e) (ap (λ (x : Db). x.outbox_events) e)
Step-PaymentsEffect (Step.fail_publish input now e) =
    PaymentsEffect.publish (is_pending_event input.id) (as_publish_failed input) (λ x. refl)
      (λ x. refl) (ap (λ (x : Db). x.payments) e) (ap (λ (x : Db). x.outbox_events) e)
