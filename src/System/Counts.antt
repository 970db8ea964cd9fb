-- ===== src/System/Counts.antt =====
-- How the events about a payment are counted, and what its status says of them.
use payment_orchestration_pl.Prelude.{
  ℕ, ◌+◌, String, ◌≡◌, ◌≢◌, refl, Bool, true, false, ◌&&◌, Option, none, some, List, [], ◌∷◌, ◌++◌,
  arith, if◌then◌else◌, ◌==◌, eq_iff,
}
use payment_orchestration_pl.Tables.{update_where}
use payment_orchestration_pl.DataAccess.Rows.{
  PaymentStatus, authorized, captured, capture_failed, PaymentRecord, PaymentEventType,
  payment_authorized_v1, payment_captured_v1, payment_failed_v1, OutboxEventRecord, Db,
}
use payment_orchestration_pl.DataAccess.Payments.{find_payment}
use payment_orchestration_pl.Providers.Contract.{AuthorizePaymentResult, CapturePaymentResult}
use payment_orchestration_pl.Payments.Commands.{capture_update}
use payment_orchestration_pl.Payments.Commits.Steps.{authorization_event, capture_event}

abbrev pub same_type : PaymentEventType → PaymentEventType → Bool
same_type payment_authorized_v1 payment_authorized_v1 = true
same_type payment_captured_v1 payment_captured_v1 = true
same_type payment_failed_v1 payment_failed_v1 = true
same_type _ _ = false

abbrev pub hit : String → PaymentEventType → OutboxEventRecord → ℕ
hit id t e = if e.aggregate_id == id && same_type e.event_type t then 1 else 0

-- How many events of a type the outbox holds about a payment, whatever their delivery status.
unfoldable pub events_about : String → PaymentEventType → List OutboxEventRecord → ℕ
events_about id t [] = 0
events_about id t (e ∷ es) = hit id t e + events_about id t es

-- One authorization event if it was authorized, one capture event if it was captured, one failure
-- event if either failed.
abbrev pub by_status : PaymentEventType → PaymentStatus → ℕ
by_status payment_authorized_v1 authorized = 1
by_status payment_authorized_v1 captured = 1
by_status payment_authorized_v1 capture_failed = 1
by_status payment_captured_v1 captured = 1
by_status payment_failed_v1 PaymentStatus.failed = 1
by_status payment_failed_v1 capture_failed = 1
by_status _ _ = 0

-- What a payment's status, or its absence, says has happened.
abbrev pub happened : PaymentEventType → Option PaymentRecord → ℕ
happened t none = 0
happened t (some p) = by_status t p.status

-- For every id and every type of event.
unfoldable pub IsExact : Db → Type 0
IsExact db =
    (id : String) (t : PaymentEventType)
    → events_about id t db.outbox_events ≡ happened t (find_payment id db.payments)

pub events_about-append :
    (id : String) (t : PaymentEventType) (es : List OutboxEventRecord) (e : OutboxEventRecord)
    → events_about id t (es ++ e ∷ []) ≡ events_about id t es + hit id t e
unfolding events_about
events_about-append id t [] e = omega arith
events_about-append id t (x ∷ es) e = omega (arith, events_about-append id t es e)

pub events_about-update :
    (id : String) (t : PaymentEventType) (p : OutboxEventRecord → Bool)
    (f : OutboxEventRecord → OutboxEventRecord) (es : List OutboxEventRecord)
    → ((e : OutboxEventRecord) → (f e).aggregate_id ≡ e.aggregate_id)
    → ((e : OutboxEventRecord) → (f e).event_type ≡ e.event_type)
    → events_about id t (update_where p f es) ≡ events_about id t es
unfolding events_about update_where
events_about-update id t p f [] ha ht = refl
events_about-update id t p f (e ∷ es) ha ht =
    let same : hit id t (if p e then f e else e) ≡ hit id t e = ground (arith, ha e, ht e) in
    omega (arith, same, events_about-update id t p f es ha ht)

-- A payment that was absent, by its first status.
pub happened_create :
    (t : PaymentEventType) (p : PaymentRecord) (e : OutboxEventRecord)
    (answer : AuthorizePaymentResult)
    → p.status ≡ elim answer [
      | AuthorizePaymentResult.approved _ _ ↦ authorized
      | AuthorizePaymentResult.declined _ _ _ _ ↦ PaymentStatus.failed
    ]
    → e.aggregate_id ≡ p.id
    → e.event_type ≡ authorization_event answer
    → hit p.id t e ≡ by_status t p.status
happened_create t p e (AuthorizePaymentResult.approved _ _) h a k =
    ground (arith, eq_iff e.aggregate_id p.id)
happened_create t p e (AuthorizePaymentResult.declined _ _ _ _) h a k =
    ground (arith, eq_iff e.aggregate_id p.id)

pub happened_capture :
    (t : PaymentEventType) (p : PaymentRecord) (e : OutboxEventRecord)
    (answer : CapturePaymentResult) (at : ℕ)
    → p.status ≡ authorized
    → e.aggregate_id ≡ p.id
    → e.event_type ≡ capture_event answer
    → by_status t p.status + hit p.id t e ≡ by_status t (capture_update p.id answer at).status
happened_capture t p e (CapturePaymentResult.approved _) at h a k =
    ground (arith, eq_iff e.aggregate_id p.id)
happened_capture t p e (CapturePaymentResult.declined _ _ _) at h a k =
    ground (arith, eq_iff e.aggregate_id p.id)

-- An event about one payment is no event about another.
pub hit_other :
    (id : String) (t : PaymentEventType) (e : OutboxEventRecord) (p : PaymentRecord)
    → e.aggregate_id ≡ p.id
    → id ≢ p.id
    → hit id t e ≡ 0
hit_other id t e p a ne = ground (arith, eq_iff e.aggregate_id id)
