-- ===== src/Payments/Commits/Capture.antt =====
-- What the transaction of `capture` has done when its body resolves.
use payment_orchestration_pl.Prelude.{
  ℕ, String, ◌≡◌, refl, sym, ◌∙◌, ap, Option, none, some, [], ◌∷◌, ◌++◌, arith, map_option,
}
use payment_orchestration_pl.Errors.{Thrown, ok}
use payment_orchestration_pl.Tables.{first_where, update_where}
use payment_orchestration_pl.DataAccess.Rows.{
  authorized, PaymentRecord, IdempotencyRecord, OutboxEventRecord, ResponseBody, dto,
}
use payment_orchestration_pl.DataAccess.Payments.{
  UpdateAuthorizedPaymentStatusInput, find_payment, is_updatable, with_status,
  update_status_if_authorized, find_by_id_for_update,
}
use payment_orchestration_pl.DataAccess.Idempotency.{is_owned, with_response, MarkCompletedInput}
use payment_orchestration_pl.Exec.{World, M, ◌>>=◌, query}
use payment_orchestration_pl.Exec.Laws.{
  Yields, Yields-bind, Yields-lift, Yields-gets, Yields-weaken,
}
use payment_orchestration_pl.Providers.Contract.{
  CapturePaymentInput, CapturePaymentResult, PaymentProvider,
}
use payment_orchestration_pl.Idempotency.Service.{Started}
use payment_orchestration_pl.Payments.Commands.{
  CapturePaymentCommand, call_capture, or_throw, capture_update, to_dto,
}
use payment_orchestration_pl.Payments.Service.{
  PaymentsService, capture_payment, capture_in_transaction, persist_capture,
}
use payment_orchestration_pl.Payments.Status.{ensure_can_capture}
use payment_orchestration_pl.Exec.{later_ticks}
use payment_orchestration_pl.Messaging.Message.{message_of, IsDescribed}
use payment_orchestration_pl.Payments.Commits.Steps.{
  capture_event, record_capture-Records, complete-Completes,
}

-- The conditional update: it reports the row only where the payment is AUTHORIZED.
pub record Updates (u : UpdateAuthorizedPaymentStatusInput) (w : World) (o : Option PaymentRecord)
    (w' : World) : Type 0 where
  pub row : o ≡ map_option (with_status u w.db_now) (first_where (is_updatable u.id) w.db.payments)
  pub world : w' ≡ record w {
    db = record w.db {
      payments = update_where (is_updatable u.id) (with_status u w.db_now) w.db.payments;
    };
  }

update-Updates :
    (u : UpdateAuthorizedPaymentStatusInput) (w : World)
    → Yields (query (update_status_if_authorized u)) w (Updates u w)
unfolding ◌>>=◌ update_status_if_authorized
update-Updates u w = record {
  yields = λ o w' h. record { row = ground arith; world = ground arith };
}

eq-authorized_of_ensure : (p : PaymentRecord) → ensure_can_capture p ≡ ok tt → p.status ≡ authorized
unfolding ensure_can_capture
eq-authorized_of_ensure p h = ground arith

or_throw-Yields :
    {A B : Type 0} (e : Thrown) (o : Option A) {f : A → M B} {w : World} {Q : B → World → Type 0}
    → ((a : A) → o ≡ some a → Yields (f a) w Q)
    → Yields (or_throw e o >>= f) w Q
unfolding ◌>>=◌
or_throw-Yields e none k = record { yields = λ b w' h. absurd (cc) }
or_throw-Yields e (some a) k = record { yields = (k a refl).yields }

find-Finds :
    (id : String) (w : World)
    → Yields (query (find_by_id_for_update id)) w (λ o w'.
      ((p : PaymentRecord) → o ≡ some p → find_payment id w.db.payments ≡ some p) × (w' ≡ w))
unfolding ◌>>=◌ find_by_id_for_update
find-Finds id w = record { yields = λ o w' h. (λ p e. ground arith, ground arith) }

-- The provider's answer; of the world only the clock, the ticks and the log have changed.
pub record Answers (w : World) (w' : World) : Type 0 where
  pub same_db : w'.db ≡ w.db
  pub same_clock : w'.db_now ≡ w.db_now
  pub next_ticks : w'.ticks ≡ later_ticks w.ticks

call_capture-Answers :
    (provider : PaymentProvider) (input : CapturePaymentInput) (w : World)
    → Yields (call_capture provider input) w (λ _ w'. Answers w w')
unfolding call_capture
call_capture-Answers provider input w = record {
  yields = λ a w' h. record {
    same_db = ground arith;
    same_clock = ground arith;
    next_ticks = ground arith;
  };
}

-- All that a committed `capture` has done to a payment that was AUTHORIZED.
pub record CommitsCapture (c : CapturePaymentCommand) (d : Started) (w : World) (b : ResponseBody)
    (w' : World) : Type 0 where
  pub payment : PaymentRecord
  pub found : find_payment c.payment_id w.db.payments ≡ some payment
  pub capturable : payment.status ≡ authorized
  pub answer : CapturePaymentResult
  pub at : ℕ
  pub updated : PaymentRecord
  pub row :
      map_option
        (with_status (capture_update payment.id answer at) w.db_now)
        (first_where (is_updatable payment.id) w.db.payments)
      ≡ some updated
  pub event : OutboxEventRecord
  pub about : event.aggregate_id ≡ updated.id
  pub of_type : event.event_type ≡ capture_event answer
  pub described : IsDescribed (message_of event)
  pub input : MarkCompletedInput
  pub same_resource : input.resource_id ≡ updated.id
  pub code : input.response_status_code ≡ 200
  pub body : input.response_body ≡ b
  pub answer_body : b ≡ dto (to_dto updated)
  pub owner : IdempotencyRecord
  pub owned :
      first_where (is_owned d.record_id d.processing_token) w.db.idempotency_keys ≡ some owner
  pub db : w'.db ≡ record {
    payments =
        update_where
          (is_updatable payment.id)
          (with_status (capture_update payment.id answer at) w.db_now)
          w.db.payments;
    idempotency_keys =
        update_where
          (is_owned d.record_id d.processing_token)
          (with_response input w.db_now)
          w.db.idempotency_keys;
    outbox_events = w.db.outbox_events ++ event ∷ [];
  }
  pub next_ticks : w'.ticks ≡ later_ticks w.ticks

abbrev capture_update_id :
    (id : String) (answer : CapturePaymentResult) (now : ℕ) → (capture_update id answer now).id ≡ id
capture_update_id id (CapturePaymentResult.approved _) now = refl
capture_update_id id (CapturePaymentResult.declined _ _ _) now = refl

module _ (s : PaymentsService) where
  -- From the provider's answer on, in the world `w₁` that it left.
  persist_capture-Commits :
      (c : CapturePaymentCommand) (d : Started) (p : PaymentRecord) (answer : CapturePaymentResult)
      (w w₁ : World)
      → find_payment c.payment_id w.db.payments ≡ some p
      → p.status ≡ authorized
      → Answers w w₁
      → Yields (persist_capture s c d p answer) w₁ (CommitsCapture c d w)
  unfolding persist_capture
  persist_capture-Commits c d p answer w w₁ found capturable a = Yields-gets _ _ (
      Yields-lift λ _ _.
        Yields-bind (update-Updates (capture_update p.id answer w₁.now) w₁) λ o w₂ u.
          or_throw-Yields _ o λ p' e.
            Yields-bind (record_capture-Records c.correlation_id answer p' w₂) λ _ w₃ r.
              Yields-weaken (complete-Completes s d 200 p' w₃) λ b w₄ k. record {
                payment = p;
                found = found;
                capturable = capturable;
                answer = answer;
                at = w₁.now;
                updated = p';
                row = ground (
                  arith,
                  u.row,
                  e,
                  a.same_db,
                  a.same_clock,
                  capture_update_id p.id answer w₁.now,
                );
                event = r.event;
                about = r.about;
                of_type = r.of_type;
                described = r.described;
                input = k.input;
                same_resource = k.same_resource;
                code = k.code;
                body = k.body ∙ sym k.answer;
                answer_body = k.answer;
                owner = k.owner;
                owned = ground (arith, u.world, r.appended, k.owned, a.same_db);
                db = ground (
                  arith,
                  u.world,
                  r.appended,
                  r.same_clock,
                  k.updated,
                  a.same_db,
                  a.same_clock,
                  capture_update_id p.id answer w₁.now,
                );
                next_ticks =
                    k.same_ticks
                    ∙ r.same_ticks
                    ∙ ap (λ (x : World). x.ticks) u.world
                    ∙ a.next_ticks;
              })

  capture_payment-Commits :
      (c : CapturePaymentCommand) (d : Started) (p : PaymentRecord) (w : World)
      → find_payment c.payment_id w.db.payments ≡ some p
      → Yields (capture_payment s c d p) w (CommitsCapture c d w)
  unfolding capture_payment
  capture_payment-Commits c d p w found = Yields-lift λ _ e. Yields-lift λ provider _.
      or_throw-Yields _ _ λ reference _.
        Yields-bind (call_capture-Answers provider _ w) λ answer w₁ a.
          persist_capture-Commits c d p answer w w₁ found
            (eq-authorized_of_ensure p (ground (arith, e))) a

  -- Where the body of `capture`'s transaction resolves, the payment was AUTHORIZED and the token
  -- owned its record, and it has updated the payment by the provider's answer, added its event and
  -- completed the record with the returned response.
  pub capture_in_transaction-Commits :
      (c : CapturePaymentCommand) (d : Started) (w : World)
      → Yields (capture_in_transaction s c d) w (CommitsCapture c d w)
  unfolding capture_in_transaction
  capture_in_transaction-Commits c d w =
      Yields-bind (find-Finds c.payment_id w)
        λ o w₁ h. rw h.1 (or_throw-Yields _ o λ p e. capture_payment-Commits c d p w (h.0 p e))
