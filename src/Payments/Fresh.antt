-- ===== src/Payments/Fresh.antt =====
-- `create` under a new key, where nothing interferes and the provider approves.
pub mod Steps
use Prim.Native.String
use payment_orchestration_pl.Prelude.{
  ℕ, ◌+◌, String, ◌≡◌, ◌≢◌, ◌∙◌, ap, sym, refl, Bool, true, false, Option, none, some, List, [],
  ◌∷◌, ◌++◌, arith, ◌==◌, eq_iff, eq_refl, ◌&&◌, if◌then◌else◌, map_option, is_some,
}
use payment_orchestration_pl.Errors.{Thrown, Result, ok, err}
use payment_orchestration_pl.Tables.{first_where, update_where}
use payment_orchestration_pl.Tables.Laws.{
  first_where-none, first_where_last, first_where-update_where,
}
use payment_orchestration_pl.DataAccess.Rows.{
  created, authorized, PaymentRecord, IdempotencyRecord, ResponseBody, dto, Db, completed,
  OutboxEventRecord, payment_authorized_v1,
}
use payment_orchestration_pl.DataAccess.Payments.{
  InsertPaymentRecord, find_payment, inserted_payment, insert, meets_checks,
}
use payment_orchestration_pl.DataAccess.Idempotency.{
  find_record, has_key, has_record_id, is_owned, with_response, MarkCompletedInput,
  TryInsertProcessingInput, processing_record,
}
use payment_orchestration_pl.DataAccess.Idempotency as Data
use payment_orchestration_pl.DataAccess.Outbox.{insert_pending, has_event_id, pending_event}
use payment_orchestration_pl.Exec.{World, M, ◌>>=◌, ◌>>◌, query, transaction, try_catch}
use payment_orchestration_pl.Exec.Laws.{bind-ok, interleave_quiet, transaction_quiet}
use payment_orchestration_pl.Providers.Contract.{
  AuthorizePaymentInput, AuthorizePaymentResult, ProviderCall,
}
use payment_orchestration_pl.Providers.Registry.{ProviderRegistryService, get_default_provider}
use payment_orchestration_pl.Outbox.Service.{
  record_payment_authorized, require_non_empty_string, to_iso_timestamp, record_event, new_event,
  authorized_payload,
}
use payment_orchestration_pl.Payments.Status.{ensure_transition}
use payment_orchestration_pl.Idempotency.Service.{
  IdempotencyService, IdempotencyDecision, Started, started, StartInput, mark_completed,
  get_existing_or_start,
}
use payment_orchestration_pl.Idempotency.Decisions.{claim, start_fresh}
use payment_orchestration_pl.Payments.Commands.{
  CreatePaymentCommand, PaymentResult, to_dto, new_payment, record_authorization, call_authorize,
}
use payment_orchestration_pl.Payments.Service.{
  PaymentsService, complete, persist_authorization, authorize_and_persist, create_input,
  create_by_decision, create,
}
use payment_orchestration_pl.Payments.Fresh.Steps.{
  approved_row, completion, authorization_input, after_call, IsClear, persist_fresh,
  authorize_fresh,
}

-- What is left by a `create` that succeeds: the payment, its event, the completed record that
-- replays the response, and one call of the provider, for the reserved id.
pub record Creates (s : PaymentsService) (c : CreatePaymentCommand) (provider reference : String)
    (w : World) (x : Result PaymentResult × World) : Type 0 where
  pub answer :
      x.0
      ≡ ok (record {
        status_code = 201;
        body = some (dto (to_dto (approved_row (w.uuid w.drawn) c provider reference w)));
      })
  pub payments :
      x.1.db.payments ≡ w.db.payments ++ approved_row (w.uuid w.drawn) c provider reference w ∷ []
  pub event : OutboxEventRecord
  pub events : x.1.db.outbox_events ≡ w.db.outbox_events ++ event ∷ []
  pub calls :
      x.1.calls
      ≡ w.calls
        ++ ProviderCall.authorize (record {
          payment_id = w.uuid w.drawn;
          merchant_id = c.merchant_id;
          amount_minor = c.amount_minor;
          currency = c.currency;
        })
          ∷ []
  pub stored : IdempotencyRecord
  pub found :
      find_record (create_input s c "").scope c.idempotency_key x.1.db.idempotency_keys
      ≡ some stored
  pub same_hash : stored.request_hash ≡ (create_input s c "").request_hash
  pub done : stored.status ≡ completed
  pub code : stored.response_status_code ≡ some 201
  pub body :
      stored.response_body
      ≡ some (dto (to_dto (approved_row (w.uuid w.drawn) c provider reference w)))
  pub still_quiet : x.1.ticks ≡ []

module _ (s : PaymentsService) (c : CreatePaymentCommand) (provider reference : String) (w : World)
    (clear : IsClear s c provider reference w) where
  abbrev input : StartInput
  input = create_input s c (w.uuid w.drawn)

  abbrev asked : World
  asked = record w { drawn = w.drawn + 1 }

  abbrev new_record : IdempotencyRecord
  new_record =
      processing_record (claim s.idempotency_service input asked) (w.uuid (w.drawn + 1 + 1))
        w.db_now

  abbrev claimed : World
  claimed = record w {
    db = record w.db { idempotency_keys = w.db.idempotency_keys ++ new_record ∷ [] };
    drawn = w.drawn + 1 + 1 + 1;
  }

  abbrev decision : Started
  decision = record {
    record_id = w.uuid (w.drawn + 1 + 1);
    resource_id = w.uuid w.drawn;
    processing_token = w.uuid (w.drawn + 1);
  }

  claims :
      get_existing_or_start s.idempotency_service input asked ≡ (ok (started decision), claimed)
  claims =
      start_fresh s.idempotency_service input asked clear.quiet clear.key_free clear.record_free
        clear.id_named clear.token_named

  owns :
      first_where
        (is_owned decision.record_id decision.processing_token)
        claimed.db.idempotency_keys
      ≡ some new_record
  owns =
      first_where_last (is_owned decision.record_id decision.processing_token) w.db.idempotency_keys
        new_record
        (first_where-none (is_owned decision.record_id decision.processing_token)
          (has_record_id decision.record_id) w.db.idempotency_keys (λ x h. ground arith)
          clear.record_free)
        (ground (arith, eq_refl decision.record_id, eq_refl decision.processing_token))

  reads :
      (f : IdempotencyRecord → IdempotencyRecord)
      → ((x : IdempotencyRecord)
          → has_key input.scope input.idempotency_key (f x)
            ≡ has_key input.scope input.idempotency_key x)
      → find_record input.scope input.idempotency_key (
          update_where
            (is_owned decision.record_id decision.processing_token)
            f
            claimed.db.idempotency_keys)
        ≡ some (f new_record)
  reads f keeps =
      first_where-update_where (has_key input.scope input.idempotency_key)
        (is_owned decision.record_id decision.processing_token) f claimed.db.idempotency_keys keeps
      ∙ (let last =
            first_where_last (has_key input.scope input.idempotency_key) w.db.idempotency_keys
              new_record clear.key_free
              (ground (arith, eq_refl input.scope, eq_refl input.idempotency_key)) in
          rw last (ground (arith, eq_refl decision.record_id, eq_refl decision.processing_token)))

  persists :
      (e : OutboxEventRecord) × (authorize_and_persist s c decision claimed ≡ (
        ok (record {
          status_code = 201;
          body = some (dto (to_dto (approved_row (w.uuid w.drawn) c provider reference w)));
        }),
        record claimed {
          db = record {
            payments = w.db.payments ++ approved_row (w.uuid w.drawn) c provider reference w ∷ [];
            idempotency_keys =
                update_where
                  (is_owned decision.record_id decision.processing_token)
                  (with_response
                    (completion s decision (approved_row (w.uuid w.drawn) c provider reference w) w)
                    w.db_now)
                  claimed.db.idempotency_keys;
            outbox_events = w.db.outbox_events ++ e ∷ [];
          };
          drawn = w.drawn + 1 + 1 + 1 + 1;
          calls = w.calls ++ ProviderCall.authorize (authorization_input c decision) ∷ [];
        },
      ))
  persists =
      let (e, p) =
        persist_fresh s c decision provider reference
          (after_call (authorization_input c decision) claimed) new_record clear.payment_free
          clear.meets clear.named clear.event_free owns in
      (e, authorize_fresh s c decision provider reference claimed clear.quiet clear.approves _ _ p)

  -- Under a new key, with a provider that approves, fresh ids and a silent environment, `create`
  -- succeeds with status 201, and leaves the payment, one event, the completed record with the
  -- response, and one provider call.
  pub create_succeeds : Creates s c provider reference w (create s c w)
  unfolding ◌>>=◌ create create_by_decision
  create_succeeds =
      let (e, p) = persists in
      let whole =
        bind-ok (get_existing_or_start s.idempotency_service input) (create_by_decision s c)
          claims in
      record {
        answer = ground (arith, whole, p);
        payments = ground (arith, whole, p);
        event = e;
        events = ground (arith, whole, p);
        calls = ground (arith, whole, p);
        stored =
            with_response
              (completion s decision (approved_row (w.uuid w.drawn) c provider reference w) w)
              w.db_now new_record;
        found = ground (
          arith,
          whole,
          p,
          reads
              (with_response
                (completion s decision (approved_row (w.uuid w.drawn) c provider reference w) w)
                w.db_now)
              (λ x. refl),
        );
        same_hash = refl;
        done = refl;
        code = refl;
        body = refl;
        still_quiet = ground (arith, whole, p, clear.quiet);
      }
