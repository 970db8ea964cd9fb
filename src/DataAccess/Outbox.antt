-- ===== src/DataAccess/Outbox.antt =====
-- services/payment-service/src/data-access/outbox/outbox-events-data-access.ts, over the table of
-- the migration 006.
use payment_orchestration_pl.Prelude.{
  ℕ, ◌+◌, String, Bool, true, false, ◌&&◌, ◌||◌, not, Option, none, some, List, [], ◌∷◌, ◌++◌, ◌==◌,
  leb, ltb, nat_eq, if◌then◌else◌, is_some, take,
}
use payment_orchestration_pl.Errors.{other_error, ok, err}
use payment_orchestration_pl.Tables.{first_where, select_where, update_returning}
use payment_orchestration_pl.DataAccess.Rows.{
  PaymentEventType, PaymentEventEnvelope, OutboxEventStatus, pending, published, OutboxEventRecord,
  Db,
}
use payment_orchestration_pl.Exec.{Statement}

pub record InsertPendingOutboxEvent : Type 0 where
  pub id : String
  pub aggregate_type : String
  pub aggregate_id : String
  pub event_type : PaymentEventType
  pub event_version : ℕ
  pub routing_key : PaymentEventType
  pub payload : PaymentEventEnvelope

pub record MarkPublishFailedInput : Type 0 where
  pub id : String
  pub last_error : String
  pub max_attempts : ℕ
  pub next_retry_at : ℕ

abbrev pub is_pending : OutboxEventStatus → Bool
is_pending pending = true
is_pending _ = false

abbrev pub has_event_id : String → OutboxEventRecord → Bool
has_event_id id e = e.id == id

-- The row of an insertion, with the column defaults.
abbrev pub pending_event : InsertPendingOutboxEvent → ℕ → OutboxEventRecord
pending_event e now = record {
  id = e.id;
  aggregate_type = e.aggregate_type;
  aggregate_id = e.aggregate_id;
  event_type = e.event_type;
  event_version = e.event_version;
  routing_key = e.routing_key;
  payload = e.payload;
  status = pending;
  attempts = 0;
  next_retry_at = none;
  last_error = none;
  created_at = now;
  published_at = none;
}

unfoldable pub insert_pending : InsertPendingOutboxEvent → Statement OutboxEventRecord
insert_pending e now db =
    if is_some (first_where (has_event_id e.id) db.outbox_events)
    then (err (other_error "outbox_events_pkey"), db)
    else if ltb 0 e.event_version
    then (
      ok (pending_event e now),
      record db { outbox_events = db.outbox_events ++ pending_event e now ∷ [] },
    )
    else (err (other_error "outbox_events_event_version_check"), db)

-- `next_retry_at IS NULL OR next_retry_at <= now()`
abbrev pub is_due : ℕ → Option ℕ → Bool
is_due now none = true
is_due now (some t) = leb t now

abbrev pub is_eligible : ℕ → OutboxEventRecord → Bool
is_eligible now e = is_pending e.status && is_due now e.next_retry_at

-- `id_le` is PostgreSQL's order of UUIDs; `locked` are the rows that another poller holds.
module _ (id_le : String → String → Bool) where
  -- `ORDER BY created_at ASC, id ASC`
  abbrev pub precedes : OutboxEventRecord → OutboxEventRecord → Bool
  precedes a b =
      ltb a.created_at b.created_at || (nat_eq a.created_at b.created_at && id_le a.id b.id)

  unfoldable pub place : OutboxEventRecord → List OutboxEventRecord → List OutboxEventRecord
  place e [] = e ∷ []
  place e (x ∷ xs) = if precedes e x then e ∷ x ∷ xs else x ∷ place e xs

  unfoldable pub order_by_age : List OutboxEventRecord → List OutboxEventRecord
  unfolding place
  order_by_age [] = []
  order_by_age (e ∷ es) = place e (order_by_age es)

  unfoldable pub fetch_pending_batch :
      ℕ → (OutboxEventRecord → Bool) → Statement (List OutboxEventRecord)
  unfolding order_by_age
  fetch_pending_batch limit locked now db = (
    ok (
        take limit (
          order_by_age (select_where (λ e. is_eligible now e && not (locked e)) db.outbox_events))),
    db,
  )

abbrev pub is_pending_event : String → OutboxEventRecord → Bool
is_pending_event id e = e.id == id && is_pending e.status

abbrev pub update_events :
    (OutboxEventRecord → Bool)
    → (OutboxEventRecord → OutboxEventRecord)
    → Db
    → Option OutboxEventRecord × Db
update_events p f db =
    let (updated, rows) = update_returning p f db.outbox_events in
    (updated, record db { outbox_events = rows })

abbrev pub as_published : ℕ → OutboxEventRecord → OutboxEventRecord
as_published now e = record e { status = published; published_at = some now }

unfoldable pub mark_published : String → Statement (Option OutboxEventRecord)
mark_published id now db =
    let (updated, db') = update_events (is_pending_event id) (as_published now) db in
    (ok updated, db')

-- `CASE WHEN attempts + 1 >= max THEN 'FAILED' ELSE 'PENDING' END`, and the retry time with it.
abbrev pub as_publish_failed : MarkPublishFailedInput → OutboxEventRecord → OutboxEventRecord
as_publish_failed input e = record e {
  attempts = e.attempts + 1;
  status = if leb input.max_attempts (e.attempts + 1) then OutboxEventStatus.failed else pending;
  next_retry_at =
      if leb input.max_attempts (e.attempts + 1) then none else some input.next_retry_at;
  last_error = some input.last_error;
}

unfoldable pub mark_publish_failed : MarkPublishFailedInput → Statement (Option OutboxEventRecord)
mark_publish_failed input now db =
    let (updated, db') = update_events (is_pending_event input.id) (as_publish_failed input) db in
    (ok updated, db')
