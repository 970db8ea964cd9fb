-- ===== src/Payments/Captured/Success.antt =====
-- The whole of `capture` under a new key, where nothing interferes and the provider approves.
use payment_orchestration_pl.Prelude.{
  ◌+◌, String, ◌≡◌, ◌≢◌, ◌∙◌, refl, none, some, [], ◌∷◌, ◌++◌, arith, eq_refl,
}
use payment_orchestration_pl.Errors.{Result, ok}
use payment_orchestration_pl.Tables.{first_where, update_where}
use payment_orchestration_pl.Tables.Laws.{
  first_where-none, first_where_last, first_where-update_where,
}
use payment_orchestration_pl.DataAccess.Rows.{
  PaymentRecord, IdempotencyRecord, dto, OutboxEventRecord, completed,
}
use payment_orchestration_pl.DataAccess.Payments.{is_updatable, with_status}
use payment_orchestration_pl.DataAccess.Idempotency.{
  find_record, has_key, has_record_id, is_owned, with_response, processing_record,
}
use payment_orchestration_pl.DataAccess.Outbox.{has_event_id}
use payment_orchestration_pl.Exec.{World, ◌>>=◌}
use payment_orchestration_pl.Exec.Laws.{bind-ok, transaction_quiet}
use payment_orchestration_pl.Providers.Contract.{PaymentProvider, ProviderCall}
use payment_orchestration_pl.Idempotency.Service.{started, Started, get_existing_or_start}
use payment_orchestration_pl.Idempotency.Decisions.{claim, start_fresh}
use payment_orchestration_pl.Payments.Commands.{CapturePaymentCommand, PaymentResult, to_dto}
use payment_orchestration_pl.Payments.Service.{
  PaymentsService, capture_input, capture_by_decision, capture, lock_and_capture,
  capture_in_transaction,
}
use payment_orchestration_pl.Payments.Captured.{
  asked_capture, approved_update, captured_row, capture_completion, IsCapturable, after_capture,
  capture_fresh,
}

-- Under which no other row stands in the way.
pub record IsFree (s : PaymentsService) (c : CapturePaymentCommand) (w : World) : Type 0 where
  pub id_named : c.payment_id ≢ ""
  pub token_named : w.uuid w.drawn ≢ ""
  pub key_free :
      find_record (capture_input s c).scope c.idempotency_key w.db.idempotency_keys ≡ none
  pub record_free : first_where (has_record_id (w.uuid (w.drawn + 1))) w.db.idempotency_keys ≡ none
  pub event_free : first_where (has_event_id (w.uuid (w.drawn + 1 + 1))) w.db.outbox_events ≡ none

-- What is left by a `capture` that succeeds: the payment as CAPTURED, one event, the completed record
-- that replays the response, and one call of the provider.
pub record Captures (s : PaymentsService) (c : CapturePaymentCommand) (p : PaymentRecord)
    (reference : String) (w : World) (x : Result PaymentResult × World) : Type 0 where
  pub answer :
      x.0 ≡ ok (record { status_code = 200; body = some (dto (to_dto (captured_row p w))) })
  pub payments :
      x.1.db.payments
      ≡ update_where (is_updatable p.id) (with_status (approved_update p w) w.db_now) w.db.payments
  pub event : OutboxEventRecord
  pub events : x.1.db.outbox_events ≡ w.db.outbox_events ++ event ∷ []
  pub calls : x.1.calls ≡ w.calls ++ ProviderCall.capture (asked_capture p reference) ∷ []
  pub stored : IdempotencyRecord
  pub found :
      find_record (capture_input s c).scope c.idempotency_key x.1.db.idempotency_keys ≡ some stored
  pub same_hash : stored.request_hash ≡ (capture_input s c).request_hash
  pub done : stored.status ≡ completed
  pub code : stored.response_status_code ≡ some 200
  pub body : stored.response_body ≡ some (dto (to_dto (captured_row p w)))

module _ (s : PaymentsService) (c : CapturePaymentCommand) (p : PaymentRecord)
    (provider : PaymentProvider) (reference : String) (w : World)
    (k : IsCapturable s c p provider reference w) (free : IsFree s c w) where
  abbrev new_record : IdempotencyRecord
  new_record =
      processing_record (claim s.idempotency_service (capture_input s c) w) (w.uuid (w.drawn + 1))
        w.db_now

  abbrev claimed : World
  claimed = record w {
    db = record w.db { idempotency_keys = w.db.idempotency_keys ++ new_record ∷ [] };
    drawn = w.drawn + 1 + 1;
  }

  abbrev decision : Started
  decision = record {
    record_id = w.uuid (w.drawn + 1);
    resource_id = c.payment_id;
    processing_token = w.uuid w.drawn;
  }

  claims :
      get_existing_or_start s.idempotency_service (capture_input s c) w
      ≡ (ok (started decision), claimed)
  claims =
      start_fresh s.idempotency_service (capture_input s c) w k.quiet free.key_free free.record_free
        free.id_named free.token_named

  owns :
      first_where
        (is_owned decision.record_id decision.processing_token)
        claimed.db.idempotency_keys
      ≡ some new_record
  owns =
      first_where_last (is_owned decision.record_id decision.processing_token) w.db.idempotency_keys
        new_record
        (first_where-none (is_owned decision.record_id decision.processing_token)
          (has_record_id decision.record_id) w.db.idempotency_keys (λ x h. ground arith)
          free.record_free)
        (ground (arith, eq_refl decision.record_id, eq_refl decision.processing_token))

  reads :
      (f : IdempotencyRecord → IdempotencyRecord)
      → ((x : IdempotencyRecord)
          → has_key (capture_input s c).scope c.idempotency_key (f x)
            ≡ has_key (capture_input s c).scope c.idempotency_key x)
      → find_record (capture_input s c).scope c.idempotency_key (
          update_where
            (is_owned decision.record_id decision.processing_token)
            f
            claimed.db.idempotency_keys)
        ≡ some (f new_record)
  reads f keeps =
      first_where-update_where (has_key (capture_input s c).scope c.idempotency_key)
        (is_owned decision.record_id decision.processing_token) f claimed.db.idempotency_keys keeps
      ∙ (let last =
            first_where_last (has_key (capture_input s c).scope c.idempotency_key)
              w.db.idempotency_keys new_record free.key_free
              (ground (arith, eq_refl (capture_input s c).scope, eq_refl c.idempotency_key)) in
          rw last (ground (arith, eq_refl decision.record_id, eq_refl decision.processing_token)))

  claimed-IsCapturable : IsCapturable s c p provider reference claimed
  claimed-IsCapturable = record {
    quiet = k.quiet;
    found = k.found;
    is_authorized = k.is_authorized;
    configured = k.configured;
    referenced = k.referenced;
    named = k.named;
    approves = k.approves;
  }

  locks :
      (e : OutboxEventRecord) × (lock_and_capture s c decision claimed ≡ (
        ok (record { status_code = 200; body = some (dto (to_dto (captured_row p w))) }),
        after_capture s decision p reference e claimed,
      ))
  unfolding ◌>>=◌ lock_and_capture
  locks =
      let (e, q) =
        capture_fresh s c decision p provider reference claimed claimed-IsCapturable new_record
          free.event_free owns in
      let t = transaction_quiet (capture_in_transaction s c decision) claimed k.quiet q in
      (e, ground (arith, t))

  -- Under a new key, for an AUTHORIZED payment that its configured provider captures, and in a
  -- silent environment, `capture` succeeds with status 200, and leaves the payment as CAPTURED,
  -- one event, the completed record with the response, and one provider call.
  pub capture_succeeds : Captures s c p reference w (capture s c w)
  unfolding ◌>>=◌ capture capture_by_decision
  capture_succeeds =
      let (e, q) = locks in
      let whole =
        bind-ok (get_existing_or_start s.idempotency_service (capture_input s c))
          (capture_by_decision s c) claims in
      let respond = with_response (capture_completion s decision p w) w.db_now in
      record {
        answer = ground (arith, whole, q);
        payments = ground (arith, whole, q);
        event = e;
        events = ground (arith, whole, q);
        calls = ground (arith, whole, q);
        stored = respond new_record;
        found = ground (arith, whole, q, reads respond (λ x. refl));
        same_hash = refl;
        done = refl;
        code = refl;
        body = refl;
      }
