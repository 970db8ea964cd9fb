-- ===== src/Payments/Commits/Steps.antt =====
-- What each step of the two transactions has done when it resolves.
use payment_orchestration_pl.Prelude.{
  ℕ, ◌+◌, String, ◌≡◌, refl, none, some, [], ◌∷◌, ◌++◌, arith, Option-cases, inl, inr,
}
use payment_orchestration_pl.Json.{Fields}
use payment_orchestration_pl.Tables.{first_where, update_where}
use payment_orchestration_pl.DataAccess.Rows.{
  PaymentRecord, PaymentEventType, payment_authorized_v1, payment_captured_v1, payment_failed_v1,
  IdempotencyRecord, OutboxEventRecord, ResponseBody, dto,
}
use payment_orchestration_pl.DataAccess.Payments.{
  InsertPaymentRecord, find_payment, inserted_payment, insert,
}
use payment_orchestration_pl.DataAccess.Idempotency as Data
use payment_orchestration_pl.DataAccess.Idempotency.{is_owned, with_response, MarkCompletedInput}
use payment_orchestration_pl.DataAccess.Outbox.{pending_event, insert_pending}
use payment_orchestration_pl.Exec.{World, ◌>>=◌, query}
use payment_orchestration_pl.Exec.Laws.{Yields, Yields-bind, Yields-lift, Yields-pure}
use payment_orchestration_pl.Messaging.Message.{message_of, IsDescribed}
use payment_orchestration_pl.Providers.Contract.{AuthorizePaymentResult, CapturePaymentResult}
use payment_orchestration_pl.Outbox.Service.{
  Operation, new_event, record_event, record_payment_authorized, record_payment_captured,
  record_payment_failed,
}
use payment_orchestration_pl.Idempotency.Service.{Started, mark_completed}
use payment_orchestration_pl.Payments.Commands.{record_authorization, record_capture, to_dto}
use payment_orchestration_pl.Payments.Service.{PaymentsService, complete}

-- The insertion of a payment succeeds only where its id is free.
pub record Inserts (r : InsertPaymentRecord) (w : World) (p : PaymentRecord) (w' : World)
    : Type 0 where
  pub fresh : find_payment r.id w.db.payments ≡ none
  pub row : p ≡ inserted_payment r w.db_now
  pub world : w' ≡ record w {
    db = record w.db { payments = w.db.payments ++ inserted_payment r w.db_now ∷ [] };
  }

pub insert-Inserts :
    (r : InsertPaymentRecord) (w : World) → Yields (query (insert r)) w (Inserts r w)
unfolding ◌>>=◌ insert
insert-Inserts r w = record {
  yields = λ p w' h. record { fresh = ground arith; row = ground arith; world = ground arith };
}

-- One new event about `id`, with a message that is as its content says, and nothing else changed in
-- the database.
pub record Records (t : PaymentEventType) (id : String) (w w' : World) : Type 0 where
  pub event : OutboxEventRecord
  pub about : event.aggregate_id ≡ id
  pub of_type : event.event_type ≡ t
  pub described : IsDescribed (message_of event)
  pub appended : w'.db ≡ record w.db { outbox_events = w.db.outbox_events ++ event ∷ [] }
  pub same_clock : w'.db_now ≡ w.db_now
  pub same_ticks : w'.ticks ≡ w.ticks

pub record_event-Records :
    (t : PaymentEventType) (corr : String) (p : PaymentRecord) (fs : Fields) (w : World)
    → Yields (record_event t corr p fs) w (λ _ w'. Records t p.id w w')
unfolding ◌>>=◌ record_event insert_pending message_of
record_event-Records t corr p fs w = record {
  yields = λ e w' h. record {
    event = pending_event (new_event (w.uuid w.drawn) t corr w.now p fs) w.db_now;
    about = refl;
    of_type = refl;
    described = record { same_id = refl; same_correlation = refl; same_kind = refl; routed = refl };
    appended = ground arith;
    same_clock = ground arith;
    same_ticks = ground arith;
  };
}

pub record_payment_authorized-Records :
    (corr : String) (p : PaymentRecord) (w : World)
    → Yields (record_payment_authorized corr p) w (λ _ w'. Records payment_authorized_v1 p.id w w')
unfolding record_payment_authorized
record_payment_authorized-Records corr p w =
    Yields-lift (λ reference _. Yields-lift (λ at _. record_event-Records _ corr p _ w))

pub record_payment_captured-Records :
    (corr : String) (p : PaymentRecord) (w : World)
    → Yields (record_payment_captured corr p) w (λ _ w'. Records payment_captured_v1 p.id w w')
unfolding record_payment_captured
record_payment_captured-Records corr p w =
    Yields-lift (λ reference _. Yields-lift (λ at _. record_event-Records _ corr p _ w))

pub record_payment_failed-Records :
    (corr : String) (o : Operation) (p : PaymentRecord) (w : World)
    → Yields (record_payment_failed corr o p) w (λ _ w'. Records payment_failed_v1 p.id w w')
unfolding record_payment_failed
record_payment_failed-Records corr o p w =
    Yields-lift
      (λ code _. Yields-lift (λ m _. Yields-lift (λ at _. record_event-Records _ corr p _ w)))

-- The type of the event, by the provider's answer.
abbrev pub authorization_event : AuthorizePaymentResult → PaymentEventType
authorization_event (AuthorizePaymentResult.approved _ _) = payment_authorized_v1
authorization_event (AuthorizePaymentResult.declined _ _ _ _) = payment_failed_v1

abbrev pub capture_event : CapturePaymentResult → PaymentEventType
capture_event (CapturePaymentResult.approved _) = payment_captured_v1
capture_event (CapturePaymentResult.declined _ _ _) = payment_failed_v1

pub record_authorization-Records :
    (corr : String) (answer : AuthorizePaymentResult) (p : PaymentRecord) (w : World)
    → Yields
        (record_authorization corr answer p)
        w
        (λ _ w'. Records (authorization_event answer) p.id w w')
unfolding record_authorization
record_authorization-Records corr (AuthorizePaymentResult.approved a b) p w =
    Yields-bind (record_payment_authorized-Records corr p w) (λ e v h. Yields-pure tt h)
record_authorization-Records corr (AuthorizePaymentResult.declined a b c d) p w =
    Yields-bind (record_payment_failed-Records corr Operation.authorize p w)
      (λ e v h. Yields-pure tt h)

pub record_capture-Records :
    (corr : String) (answer : CapturePaymentResult) (p : PaymentRecord) (w : World)
    → Yields (record_capture corr answer p) w (λ _ w'. Records (capture_event answer) p.id w w')
unfolding record_capture
record_capture-Records corr (CapturePaymentResult.approved a) p w =
    Yields-bind (record_payment_captured-Records corr p w) (λ e v h. Yields-pure tt h)
record_capture-Records corr (CapturePaymentResult.declined a b c) p w =
    Yields-bind (record_payment_failed-Records corr Operation.capture p w)
      (λ e v h. Yields-pure tt h)

-- Completion succeeds only while the token owns the record, and completes that record.
pub record Completes (d : Started) (status_code : ℕ) (p : PaymentRecord) (w : World)
    (b : ResponseBody) (w' : World) : Type 0 where
  pub answer : b ≡ dto (to_dto p)
  pub input : MarkCompletedInput
  pub same_record : input.id ≡ d.record_id
  pub same_token : input.processing_token ≡ d.processing_token
  pub same_resource : input.resource_id ≡ p.id
  pub code : input.response_status_code ≡ status_code
  pub body : input.response_body ≡ dto (to_dto p)
  pub owner : IdempotencyRecord
  pub owned :
      first_where (is_owned d.record_id d.processing_token) w.db.idempotency_keys ≡ some owner
  pub updated : w'.db ≡ record w.db {
    idempotency_keys =
        update_where
          (is_owned d.record_id d.processing_token)
          (with_response input w.db_now)
          w.db.idempotency_keys;
  }
  pub same_ticks : w'.ticks ≡ w.ticks

module _ (s : PaymentsService) where
  pub complete-Completes :
      (d : Started) (status_code : ℕ) (p : PaymentRecord) (w : World)
      → Yields (complete s d status_code p) w (Completes d status_code p w)
  unfolding ◌>>=◌ complete mark_completed Data.mark_completed
  complete-Completes d status_code p w =
      elim (Option-cases
        (first_where (is_owned d.record_id d.processing_token) w.db.idempotency_keys)) [
          | inl e ↦ record { yields = λ b w' h. absurd (ground arith) }
          | inr (owner, e) ↦ record {
            yields = λ b w' h. record {
              answer = ground arith;
              input = record {
                id = d.record_id;
                response_status_code = status_code;
                response_body = dto (to_dto p);
                resource_type = "payment";
                resource_id = p.id;
                expires_at = w.now + s.idempotency_service.completed_ttl_ms;
                processing_token = d.processing_token;
              };
              same_record = refl;
              same_token = refl;
              same_resource = refl;
              code = refl;
              body = refl;
              owner = owner;
              owned = e;
              updated = ground arith;
              same_ticks = ground arith;
            };
          }
        ]
