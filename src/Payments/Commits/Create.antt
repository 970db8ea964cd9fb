-- ===== src/Payments/Commits/Create.antt =====
-- What the transaction of `create` has done when its body resolves.
use payment_orchestration_pl.Prelude.{
  ℕ, String, ◌≡◌, refl, sym, ◌∙◌, ap, none, some, [], ◌∷◌, ◌++◌, arith,
}
use payment_orchestration_pl.Tables.{first_where, update_where}
use payment_orchestration_pl.DataAccess.Rows.{
  IdempotencyRecord, OutboxEventRecord, ResponseBody, dto,
}
use payment_orchestration_pl.DataAccess.Payments.{find_payment, inserted_payment}
use payment_orchestration_pl.DataAccess.Idempotency.{is_owned, with_response, MarkCompletedInput}
use payment_orchestration_pl.Exec.{World}
use payment_orchestration_pl.Exec.Laws.{Yields, Yields-bind, Yields-weaken}
use payment_orchestration_pl.Providers.Contract.{AuthorizePaymentResult}
use payment_orchestration_pl.Idempotency.Service.{Started}
use payment_orchestration_pl.Payments.Commands.{CreatePaymentCommand, new_payment, to_dto}
use payment_orchestration_pl.Payments.Service.{PaymentsService, persist_authorization}
use payment_orchestration_pl.Messaging.Message.{message_of, IsDescribed}
use payment_orchestration_pl.Payments.Commits.Steps.{
  insert-Inserts, authorization_event, record_authorization-Records, complete-Completes,
}

-- All that a committed `create` has done: a fresh payment, its event, and the completed record.
pub record CommitsCreate (c : CreatePaymentCommand) (d : Started) (answer : AuthorizePaymentResult)
    (now : ℕ) (w : World) (b : ResponseBody) (w' : World) : Type 0 where
  pub fresh : find_payment d.resource_id w.db.payments ≡ none
  pub event : OutboxEventRecord
  pub about : event.aggregate_id ≡ d.resource_id
  pub of_type : event.event_type ≡ authorization_event answer
  pub described : IsDescribed (message_of event)
  pub input : MarkCompletedInput
  pub same_resource : input.resource_id ≡ d.resource_id
  pub code : input.response_status_code ≡ 201
  pub body : input.response_body ≡ b
  pub answer_body :
      b ≡ dto (to_dto (inserted_payment (new_payment d.resource_id c answer now) w.db_now))
  pub owner : IdempotencyRecord
  pub owned :
      first_where (is_owned d.record_id d.processing_token) w.db.idempotency_keys ≡ some owner
  pub db : w'.db ≡ record {
    payments =
        w.db.payments ++ inserted_payment (new_payment d.resource_id c answer now) w.db_now ∷ [];
    idempotency_keys =
        update_where
          (is_owned d.record_id d.processing_token)
          (with_response input w.db_now)
          w.db.idempotency_keys;
    outbox_events = w.db.outbox_events ++ event ∷ [];
  }
  pub same_ticks : w'.ticks ≡ w.ticks

abbrev new_payment_id :
    (id : String) (c : CreatePaymentCommand) (answer : AuthorizePaymentResult) (now : ℕ)
    → (new_payment id c answer now).id ≡ id
new_payment_id id c (AuthorizePaymentResult.approved _ _) now = refl
new_payment_id id c (AuthorizePaymentResult.declined _ _ _ _) now = refl

module _ (s : PaymentsService) where
  -- Where the body of `create`'s transaction resolves, the payment id was fresh and the token
  -- owned its record, and it has added the payment and its event and completed the record with the
  -- returned response.
  pub persist_authorization-Commits :
      (c : CreatePaymentCommand) (d : Started) (answer : AuthorizePaymentResult) (now : ℕ)
      (w : World)
      → Yields (persist_authorization s c d answer now) w (CommitsCreate c d answer now w)
  unfolding persist_authorization
  persist_authorization-Commits c d answer now w =
      Yields-bind (insert-Inserts (new_payment d.resource_id c answer now) w) λ p w₁ i.
        Yields-bind (record_authorization-Records c.correlation_id answer p w₁) λ _ w₂ r.
          Yields-weaken (complete-Completes s d 201 p w₂) λ b w₃ k. record {
            fresh = ground (arith, i.fresh, new_payment_id d.resource_id c answer now);
            event = r.event;
            about = ground (arith, i.row, r.about, new_payment_id d.resource_id c answer now);
            of_type = r.of_type;
            described = r.described;
            input = k.input;
            same_resource =
                ground (arith, i.row, k.same_resource, new_payment_id d.resource_id c answer now);
            code = k.code;
            body = k.body ∙ sym k.answer;
            answer_body = k.answer ∙ ap (λ x. dto (to_dto x)) i.row;
            owner = k.owner;
            owned = ground (arith, i.world, r.appended, k.owned);
            db = ground (arith, i.world, r.appended, r.same_clock, k.updated);
            same_ticks = k.same_ticks ∙ r.same_ticks ∙ ap (λ (x : World). x.ticks) i.world;
          }
