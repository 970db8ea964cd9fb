-- ===== src/Payments/Captured.antt =====
-- `capture` of an AUTHORIZED payment under a new key, where nothing interferes and the provider
-- approves.
pub mod Success
mod Tests
use payment_orchestration_pl.Prelude.{
  ℕ, ◌+◌, String, ◌≡◌, ◌≢◌, ◌∙◌, refl, ap, sym, true, Option, none, some, List, [], ◌∷◌, ◌++◌,
  arith, eq_iff, eq_refl, ◌==◌,
}
use payment_orchestration_pl.Errors.{Result, ok}
use payment_orchestration_pl.Tables.{first_where, update_where}
use payment_orchestration_pl.Tables.Laws.{first_where_sound, first_where_strengthen}
use payment_orchestration_pl.DataAccess.Rows.{
  authorized, captured, PaymentRecord, IdempotencyRecord, dto, OutboxEventRecord,
  payment_captured_v1, ResponseBody,
}
use payment_orchestration_pl.DataAccess.Payments.{
  find_payment, has_id, is_updatable, with_status, update_status_if_authorized,
  find_by_id_for_update, UpdateAuthorizedPaymentStatusInput,
}
use payment_orchestration_pl.DataAccess.Idempotency.{is_owned, with_response, MarkCompletedInput}
use payment_orchestration_pl.DataAccess.Outbox.{insert_pending, has_event_id, pending_event}
use payment_orchestration_pl.Exec.{World, ◌>>=◌, query, transaction}
use payment_orchestration_pl.Providers.Contract.{
  CapturePaymentInput, CapturePaymentResult, PaymentProvider, ProviderCall,
}
use payment_orchestration_pl.Providers.Registry.{get_provider}
use payment_orchestration_pl.Outbox.Service.{
  record_payment_captured, require_non_empty_string, to_iso_timestamp, record_event, new_event,
  build_payment_payload,
}
use payment_orchestration_pl.Json.{str, instant, end, field, ◌<+>◌}
use payment_orchestration_pl.Payments.Status.{ensure_transition, ensure_can_capture}
use payment_orchestration_pl.Idempotency.Service.{Started}
use payment_orchestration_pl.Payments.Commands.{
  CapturePaymentCommand, to_dto, capture_update, record_capture, call_capture,
}
use payment_orchestration_pl.Payments.Service.{
  PaymentsService, complete, persist_capture, capture_payment, capture_in_transaction,
}
use payment_orchestration_pl.Payments.Fresh.Steps.{complete_owned}

-- What the provider is asked, and the row that an approved capture leaves.
abbrev pub asked_capture : PaymentRecord → String → CapturePaymentInput
asked_capture p reference = record {
  payment_id = p.id;
  provider_payment_id = reference;
  amount_minor = p.amount_minor;
  currency = p.currency;
}

abbrev pub approved_update : PaymentRecord → World → UpdateAuthorizedPaymentStatusInput
approved_update p w = capture_update p.id (CapturePaymentResult.approved p.provider) w.now

abbrev pub captured_row : PaymentRecord → World → PaymentRecord
captured_row p w = with_status (approved_update p w) w.db_now p

abbrev pub capture_completion :
    PaymentsService → Started → PaymentRecord → World → MarkCompletedInput
capture_completion s d p w = record {
  id = d.record_id;
  response_status_code = 200;
  response_body = dto (to_dto (captured_row p w));
  resource_type = "payment";
  resource_id = p.id;
  expires_at = w.now + s.idempotency_service.completed_ttl_ms;
  processing_token = d.processing_token;
}

-- The payment, its provider, and the provider's approval.
pub record IsCapturable (s : PaymentsService) (c : CapturePaymentCommand) (p : PaymentRecord)
    (provider : PaymentProvider) (reference : String) (w : World) : Type 0 where
  pub quiet : w.ticks ≡ []
  pub found : find_payment c.payment_id w.db.payments ≡ some p
  pub is_authorized : p.status ≡ authorized
  pub configured : get_provider s.provider_registry_service p.provider ≡ ok provider
  pub referenced : p.provider_payment_id ≡ some reference
  pub named : reference ≢ ""
  pub approves :
      provider.capture (asked_capture p reference) ≡ ok (CapturePaymentResult.approved p.provider)

update_found :
    (id : String) (p : PaymentRecord) (rows : List PaymentRecord)
    → find_payment id rows ≡ some p
    → p.status ≡ authorized
    → first_where (is_updatable p.id) rows ≡ some p
update_found id p rows found h =
    let same : p.id ≡ id = (eq_iff p.id id).0 (first_where_sound (has_id id) rows p found) in
    first_where_strengthen (is_updatable p.id) (has_id id) rows p
      (λ x k. ground (arith, k, same, eq_iff x.id p.id, eq_iff x.id id)) found
      (ground (arith, h, eq_refl p.id))

update_authorized :
    (p : PaymentRecord) (w : World)
    → first_where (is_updatable p.id) w.db.payments ≡ some p
    → query (update_status_if_authorized (approved_update p w)) w ≡ (
      ok (some (captured_row p w)),
      record w {
        db = record w.db {
          payments =
              update_where
                (is_updatable p.id)
                (with_status (approved_update p w) w.db_now)
                w.db.payments;
        };
      },
    )
unfolding ◌>>=◌ update_status_if_authorized
update_authorized p w h = ground (arith, h)

record_captured :
    (corr : String) (p : PaymentRecord) (reference : String) (at : ℕ) (w : World)
    → p.provider_payment_id ≡ some reference
    → reference ≢ ""
    → p.captured_at ≡ some at
    → first_where (has_event_id (w.uuid w.drawn)) w.db.outbox_events ≡ none
    → (e : OutboxEventRecord) × (record_payment_captured corr p w ≡ (
      ok e,
      record w {
        db = record w.db { outbox_events = w.db.outbox_events ++ e ∷ [] };
        drawn = w.drawn + 1;
      },
    ))
unfolding ◌>>=◌ record_payment_captured require_non_empty_string to_iso_timestamp record_event
    insert_pending
record_captured corr p reference at w hp hr ha fresh = (
  pending_event
      (new_event (w.uuid w.drawn) payment_captured_v1 corr w.now p (
        build_payment_payload p
        <+> field "providerPaymentId" (str reference) (field "capturedAt" (instant at) end)))
      w.db_now,
  ground (arith, eq_iff reference ""),
)

-- What the transaction leaves of the database.
abbrev pub after_capture :
    PaymentsService → Started → PaymentRecord → String → OutboxEventRecord → World → World
after_capture s d p reference e w = record w {
  db = record {
    payments =
        update_where (is_updatable p.id) (with_status (approved_update p w) w.db_now) w.db.payments;
    idempotency_keys =
        update_where (is_owned d.record_id d.processing_token)
          (with_response (capture_completion s d p w) w.db_now) w.db.idempotency_keys;
    outbox_events = w.db.outbox_events ++ e ∷ [];
  };
  drawn = w.drawn + 1;
  calls = w.calls ++ ProviderCall.capture (asked_capture p reference) ∷ [];
}

module _ (s : PaymentsService) (c : CapturePaymentCommand) (d : Started) (p : PaymentRecord)
    (provider : PaymentProvider) (reference : String) (w : World)
    (k : IsCapturable s c p provider reference w) where
  abbrev called : World
  called = record w { calls = w.calls ++ ProviderCall.capture (asked_capture p reference) ∷ [] }

  call_fresh :
      call_capture provider (asked_capture p reference) w
      ≡ (ok (CapturePaymentResult.approved p.provider), called)
  unfolding call_capture
  call_fresh = ground (arith, k.quiet, k.approves)

  persist_fresh :
      (owner : IdempotencyRecord)
      → first_where (has_event_id (w.uuid w.drawn)) w.db.outbox_events ≡ none
      → first_where (is_owned d.record_id d.processing_token) w.db.idempotency_keys ≡ some owner
      → (e : OutboxEventRecord) × (persist_capture s c d p
            (CapturePaymentResult.approved p.provider)
            called
          ≡ (ok (dto (to_dto (captured_row p w))), after_capture s d p reference e w))
  unfolding ◌>>=◌ persist_capture record_capture ensure_transition
  persist_fresh owner unused owned =
      let u =
        update_authorized p called
          (update_found c.payment_id p w.db.payments k.found k.is_authorized) in
      let w₁ : World = record called {
        db = record w.db {
          payments =
              update_where (is_updatable p.id) (with_status (approved_update p w) w.db_now)
                w.db.payments;
        };
      } in
      let (e, r) =
        record_captured c.correlation_id (captured_row p w) reference w.now w₁ k.referenced k.named
          refl unused in
      let w₂ : World = record w₁ {
        db = record w₁.db { outbox_events = w₁.db.outbox_events ++ e ∷ [] };
        drawn = w₁.drawn + 1;
      } in
      (e, ground (arith, u, r, complete_owned s d 200 (captured_row p w) w₂ owner owned))

  -- The transaction of `capture`.
  pub capture_fresh :
      (owner : IdempotencyRecord)
      → first_where (has_event_id (w.uuid w.drawn)) w.db.outbox_events ≡ none
      → first_where (is_owned d.record_id d.processing_token) w.db.idempotency_keys ≡ some owner
      → (e : OutboxEventRecord) × (capture_in_transaction s c d w
          ≡ (ok (dto (to_dto (captured_row p w))), after_capture s d p reference e w))
  unfolding ◌>>=◌ capture_in_transaction capture_payment find_by_id_for_update ensure_can_capture
  capture_fresh owner unused owned =
      let (e, q) = persist_fresh owner unused owned in
      (
        e,
        ground (
          arith,
          k.found,
          k.is_authorized,
          k.configured,
          k.referenced,
          k.named,
          call_fresh,
          q,
          eq_iff reference "",
        ),
      )
