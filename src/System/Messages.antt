-- ===== src/System/Messages.antt =====
-- What the rows of the outbox are published as, through all that the system does to them.
use payment_orchestration_pl.Prelude.{
  ℕ, String, ◌≡◌, refl, ap, ◌∙◌, some, List, [], ◌∷◌, ◌++◌, All, Bool, Bool-cases, inl, inr,
  if◌then◌else◌, map_option, arith,
}
use payment_orchestration_pl.Tables.{first_where, update_where}
use payment_orchestration_pl.Tables.Laws.{first_where-append, first_where-update_where}
use payment_orchestration_pl.DataAccess.Rows.{OutboxEventRecord, Db}
use payment_orchestration_pl.DataAccess.Idempotency.{
  TryInsertProcessingInput, try_insert_processing, reactivate_failed, takeover_expired_processing,
  mark_failed,
}
use payment_orchestration_pl.DataAccess.Outbox.{
  has_event_id, is_pending_event, as_published, as_publish_failed, mark_published,
  mark_publish_failed,
}
use payment_orchestration_pl.Messaging.Message.{message_of, IsDescribed}
use payment_orchestration_pl.Payments.Commits.Create.{persist_authorization-Commits}
use payment_orchestration_pl.Payments.Commits.Capture.{capture_in_transaction-Commits}
use payment_orchestration_pl.System.{Step, Reach}

pub data EventsEffect (es es' : List OutboxEventRecord) : Type 0 where
  same : es' ≡ es → EventsEffect es es'
  add :
      (e : OutboxEventRecord)
      → IsDescribed (message_of e)
      → es' ≡ es ++ e ∷ []
      → EventsEffect es es'
  update :
      (p : OutboxEventRecord → Bool) (f : OutboxEventRecord → OutboxEventRecord)
      → ((e : OutboxEventRecord) → (f e).id ≡ e.id)
      → ((e : OutboxEventRecord) → message_of (f e) ≡ message_of e)
      → es' ≡ update_where p f es
      → EventsEffect es es'

start-EventsEffect :
    (input : TryInsertProcessingInput) (id : String) (now : ℕ) (db : Db)
    → EventsEffect db.outbox_events (try_insert_processing input id now db).1.outbox_events
unfolding try_insert_processing
start-EventsEffect input id now db = EventsEffect.same (ground arith)

abbrev events : Db → List OutboxEventRecord
events db = db.outbox_events

Step-EventsEffect : {db db' : Db} → Step db db' → EventsEffect db.outbox_events db'.outbox_events
unfolding reactivate_failed takeover_expired_processing mark_failed mark_published
    mark_publish_failed message_of
Step-EventsEffect {db} (Step.start input id now e) = rw e (start-EventsEffect input id now db)
Step-EventsEffect (Step.reactivate id hash expires token now e) = EventsEffect.same (ap events e)
Step-EventsEffect (Step.take_over id hash expires token now e) = EventsEffect.same (ap events e)
Step-EventsEffect (Step.fail input now e) = EventsEffect.same (ap events e)
Step-EventsEffect (Step.create s c d answer now w w' b e e₁ e₂) =
    let k = (persist_authorization-Commits s c d answer now w).yields b w' e in
    rw (← e₁, ← e₂) (EventsEffect.add k.event k.described (ap events k.db))
Step-EventsEffect (Step.capture s c d w w' b e e₁ e₂) =
    let k = (capture_in_transaction-Commits s c d w).yields b w' e in
    rw (← e₁, ← e₂) (EventsEffect.add k.event k.described (ap events k.db))
Step-EventsEffect (Step.publish id now e) =
    EventsEffect.update (is_pending_event id) (as_published now) (λ x. refl) (λ x. refl)
      (ap events e)
Step-EventsEffect (Step.fail_publish input now e) =
    EventsEffect.update (is_pending_event input.id) (as_publish_failed input) (λ x. refl)
      (λ x. refl) (ap events e)

-- The messages of all events are as their contents say.
abbrev pub AreDescribed : List OutboxEventRecord → Type 0
AreDescribed = All (λ e. IsDescribed (message_of e))

append-AreDescribed :
    (es : List OutboxEventRecord) (e : OutboxEventRecord)
    → AreDescribed es
    → IsDescribed (message_of e)
    → AreDescribed (es ++ e ∷ [])
append-AreDescribed [] e h d = (d, tt)
append-AreDescribed (x ∷ xs) e h d = (h.0, append-AreDescribed xs e h.1 d)

update-AreDescribed :
    (p : OutboxEventRecord → Bool) (f : OutboxEventRecord → OutboxEventRecord)
    (es : List OutboxEventRecord)
    → ((e : OutboxEventRecord) → message_of (f e) ≡ message_of e)
    → AreDescribed es
    → AreDescribed (update_where p f es)
unfolding update_where
update-AreDescribed p f [] keeps h = tt
update-AreDescribed p f (x ∷ xs) keeps h = (
  elim (Bool-cases (p x)) [ inl k ↦ rw (k, keeps x) h.0 | inr k ↦ rw k h.0 ],
  update-AreDescribed p f xs keeps h.1,
)

-- The event with this id is there, and makes the same message as this one.
abbrev pub HasMessage : String → OutboxEventRecord → List OutboxEventRecord → Type 0
HasMessage id e es =
    (e' : OutboxEventRecord) × (first_where (has_event_id id) es ≡ some e')
    × (message_of e' ≡ message_of e)

effect-AreDescribed :
    {es es' : List OutboxEventRecord} → EventsEffect es es' → AreDescribed es → AreDescribed es'
effect-AreDescribed (EventsEffect.same q) h = rw q h
effect-AreDescribed {es} (EventsEffect.add e d q) h = rw q (append-AreDescribed es e h d)
effect-AreDescribed {es} (EventsEffect.update p f i keeps q) h =
    rw q (update-AreDescribed p f es keeps h)

effect-HasMessage :
    {es es' : List OutboxEventRecord} (id : String) (e : OutboxEventRecord)
    → EventsEffect es es'
    → HasMessage id e es
    → HasMessage id e es'
effect-HasMessage id e (EventsEffect.same q) h = rw q h
effect-HasMessage {es} id e (EventsEffect.add x d q) (e', found, m) =
    (e', rw (q, first_where-append, found) refl, m)
effect-HasMessage {es} id e (EventsEffect.update p f i keeps q) (e', found, m) = (
  (if p e' then f e' else e'),
  rw q (
      first_where-update_where (has_event_id id) p f es
        (λ r. ap (λ x. has_event_id id (record r { id = x })) (i r))
      ∙ ap (map_option (λ r. if p r then f r else r)) found),
  elim (Bool-cases (p e')) [ inl k ↦ rw (k, keeps e') m | inr k ↦ rw k m ],
)

pub record KeepsMessages (db db' : Db) : Type 0 where
  pub described : AreDescribed db'.outbox_events
  pub kept :
      (id : String) (e : OutboxEventRecord)
      → first_where (has_event_id id) db.outbox_events ≡ some e
      → HasMessage id e db'.outbox_events

-- If the message of each event has the id, correlation id, type and routing key that its content
-- says, this holds as well in every database that the steps reach, and each event that was there
-- is still there, with the same message.
pub Reach-KeepsMessages :
    {db db' : Db} → AreDescribed db.outbox_events → Reach db db' → KeepsMessages db db'
Reach-KeepsMessages h Reach.here = record { described = h; kept = λ id e found. (e, found, refl) }
Reach-KeepsMessages h (Reach.next r st) =
    let k = Reach-KeepsMessages h r in
    record {
      described = effect-AreDescribed (Step-EventsEffect st) k.described;
      kept = λ id e found. effect-HasMessage id e (Step-EventsEffect st) (k.kept id e found);
    }
