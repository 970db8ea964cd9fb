-- ===== src/Payments/Fresh/Steps.antt =====
-- The steps of `create` under a new key, where nothing interferes and the provider approves.
use payment_orchestration_pl.Prelude.{
  ℕ, ◌+◌, String, ◌≡◌, ◌≢◌, refl, true, none, some, [], ◌∷◌, ◌++◌, arith, eq_iff,
}
use payment_orchestration_pl.Errors.{ok}
use payment_orchestration_pl.Tables.{first_where, update_where}
use payment_orchestration_pl.DataAccess.Rows.{
  PaymentRecord, IdempotencyRecord, ResponseBody, dto, OutboxEventRecord, payment_authorized_v1,
}
use payment_orchestration_pl.DataAccess.Payments.{
  InsertPaymentRecord, find_payment, inserted_payment, insert, meets_checks,
}
use payment_orchestration_pl.DataAccess.Idempotency.{
  find_record, has_key, has_record_id, is_owned, with_response, MarkCompletedInput,
  TryInsertProcessingInput, processing_record,
}
use payment_orchestration_pl.DataAccess.Idempotency as Data
use payment_orchestration_pl.DataAccess.Outbox.{insert_pending, has_event_id, pending_event}
use payment_orchestration_pl.Exec.{World, ◌>>=◌, query}
use payment_orchestration_pl.Exec.Laws.{interleave_quiet, transaction_quiet}
use payment_orchestration_pl.Providers.Contract.{
  AuthorizePaymentInput, AuthorizePaymentResult, ProviderCall,
}
use payment_orchestration_pl.Providers.Registry.{get_default_provider}
use payment_orchestration_pl.Outbox.Service.{
  record_payment_authorized, require_non_empty_string, to_iso_timestamp, record_event, new_event,
  authorized_payload,
}
use payment_orchestration_pl.Payments.Status.{ensure_transition}
use payment_orchestration_pl.Idempotency.Service.{Started, mark_completed}
use payment_orchestration_pl.Payments.Commands.{
  CreatePaymentCommand, to_dto, new_payment, record_authorization, call_authorize,
}
use payment_orchestration_pl.Payments.Service.{
  PaymentsService, complete, persist_authorization, authorize_and_persist, create_input,
}

-- What `insert` does for a row that the constraints admit.
pub insert_fresh :
    (r : InsertPaymentRecord) (w : World)
    → find_payment r.id w.db.payments ≡ none
    → meets_checks r ≡ true
    → query (insert r) w ≡ (
      ok (inserted_payment r w.db_now),
      record w {
        db = record w.db { payments = w.db.payments ++ inserted_payment r w.db_now ∷ [] };
      },
    )
unfolding ◌>>=◌ insert
insert_fresh r w fresh meets = ground arith

-- What the completion does for the record that the token owns.
pub complete_owned :
    (s : PaymentsService) (d : Started) (code : ℕ) (p : PaymentRecord) (w : World)
    (owner : IdempotencyRecord)
    → first_where (is_owned d.record_id d.processing_token) w.db.idempotency_keys ≡ some owner
    → complete s d code p w ≡ (
      ok (dto (to_dto p)),
      record w {
        db = record w.db {
          idempotency_keys =
              update_where
                (is_owned d.record_id d.processing_token)
                (with_response
                  (record {
                    id = d.record_id;
                    response_status_code = code;
                    response_body = dto (to_dto p);
                    resource_type = "payment";
                    resource_id = p.id;
                    expires_at = w.now + s.idempotency_service.completed_ttl_ms;
                    processing_token = d.processing_token;
                  })
                  w.db_now)
                w.db.idempotency_keys;
        };
      },
    )
unfolding ◌>>=◌ complete mark_completed Data.mark_completed
complete_owned s d code p w owner owned = ground arith

-- A payment with a provider reference and its time of authorization is recorded.
pub record_authorized :
    (corr : String) (p : PaymentRecord) (reference : String) (at : ℕ) (w : World)
    → p.provider_payment_id ≡ some reference
    → reference ≢ ""
    → p.authorized_at ≡ some at
    → first_where (has_event_id (w.uuid w.drawn)) w.db.outbox_events ≡ none
    → (e : OutboxEventRecord) × (record_payment_authorized corr p w ≡ (
      ok e,
      record w {
        db = record w.db { outbox_events = w.db.outbox_events ++ e ∷ [] };
        drawn = w.drawn + 1;
      },
    ))
unfolding ◌>>=◌ record_payment_authorized require_non_empty_string to_iso_timestamp record_event
    insert_pending
record_authorized corr p reference at w hp hr ha fresh = (
  pending_event
      (new_event (w.uuid w.drawn) payment_authorized_v1 corr w.now p
        (authorized_payload p reference at))
      w.db_now,
  ground (arith, eq_iff reference ""),
)

-- The row of an approved payment, and the input of its completion.
abbrev pub approved_row :
    String → CreatePaymentCommand → (provider reference : String) → World → PaymentRecord
approved_row id c provider reference w =
    inserted_payment (new_payment id c (AuthorizePaymentResult.approved provider reference) w.now)
      w.db_now

abbrev pub completion : PaymentsService → Started → PaymentRecord → World → MarkCompletedInput
completion s d p w = record {
  id = d.record_id;
  response_status_code = 201;
  response_body = dto (to_dto p);
  resource_type = "payment";
  resource_id = p.id;
  expires_at = w.now + s.idempotency_service.completed_ttl_ms;
  processing_token = d.processing_token;
}

module _ (s : PaymentsService) (c : CreatePaymentCommand) (d : Started)
    (provider reference : String) where
  pub persist_fresh :
      (w : World) (owner : IdempotencyRecord)
      → find_payment d.resource_id w.db.payments ≡ none
      → meets_checks
          (new_payment d.resource_id c (AuthorizePaymentResult.approved provider reference) w.now)
        ≡ true
      → reference ≢ ""
      → first_where (has_event_id (w.uuid w.drawn)) w.db.outbox_events ≡ none
      → first_where (is_owned d.record_id d.processing_token) w.db.idempotency_keys ≡ some owner
      → (e : OutboxEventRecord) × (persist_authorization s c d
            (AuthorizePaymentResult.approved provider reference)
            w.now
            w
          ≡ (
            ok (dto (to_dto (approved_row d.resource_id c provider reference w))),
            record w {
              db = record {
                payments = w.db.payments ++ approved_row d.resource_id c provider reference w ∷ [];
                idempotency_keys =
                    update_where
                      (is_owned d.record_id d.processing_token)
                      (with_response
                        (completion s d (approved_row d.resource_id c provider reference w) w)
                        w.db_now)
                      w.db.idempotency_keys;
                outbox_events = w.db.outbox_events ++ e ∷ [];
              };
              drawn = w.drawn + 1;
            },
          ))
  unfolding ◌>>=◌ persist_authorization record_authorization
  persist_fresh w owner fresh meets named unused owned =
      let row : PaymentRecord = approved_row d.resource_id c provider reference w in
      let i =
        insert_fresh
          (new_payment d.resource_id c (AuthorizePaymentResult.approved provider reference) w.now) w
          fresh meets in
      let w₁ : World = record w { db = record w.db { payments = w.db.payments ++ row ∷ [] } } in
      let (e, r) =
        record_authorized c.correlation_id row reference w.now w₁ refl named refl unused in
      let w₂ : World = record w₁ {
        db = record w₁.db { outbox_events = w₁.db.outbox_events ++ e ∷ [] };
        drawn = w₁.drawn + 1;
      } in
      (e, ground (arith, i, r, complete_owned s d 201 row w₂ owner owned))

-- The call of the provider, and the world that it leaves.
abbrev pub authorization_input : CreatePaymentCommand → Started → AuthorizePaymentInput
authorization_input c d = record {
  payment_id = d.resource_id;
  merchant_id = c.merchant_id;
  amount_minor = c.amount_minor;
  currency = c.currency;
}

abbrev pub after_call : AuthorizePaymentInput → World → World
after_call input w = record w { calls = w.calls ++ ProviderCall.authorize input ∷ [] }

-- The conditions under which nothing stands in the way of a new payment.
pub record IsClear (s : PaymentsService) (c : CreatePaymentCommand) (provider reference : String)
    (w : World) : Type 0 where
  pub quiet : w.ticks ≡ []
  pub approves :
      (get_default_provider s.provider_registry_service).authorize (record {
        payment_id = w.uuid w.drawn;
        merchant_id = c.merchant_id;
        amount_minor = c.amount_minor;
        currency = c.currency;
      })
      ≡ ok (AuthorizePaymentResult.approved provider reference)
  pub named : reference ≢ ""
  pub meets :
      meets_checks
        (new_payment (w.uuid w.drawn) c (AuthorizePaymentResult.approved provider reference) w.now)
      ≡ true
  pub id_named : w.uuid w.drawn ≢ ""
  pub token_named : w.uuid (w.drawn + 1) ≢ ""
  pub payment_free : find_payment (w.uuid w.drawn) w.db.payments ≡ none
  pub key_free :
      find_record (create_input s c "").scope c.idempotency_key w.db.idempotency_keys ≡ none
  pub record_free :
      first_where (has_record_id (w.uuid (w.drawn + 1 + 1))) w.db.idempotency_keys ≡ none
  pub event_free :
      first_where (has_event_id (w.uuid (w.drawn + 1 + 1 + 1))) w.db.outbox_events ≡ none

module _ (s : PaymentsService) (c : CreatePaymentCommand) (d : Started)
    (provider reference : String) (w : World) (quiet : w.ticks ≡ [])
    (approves : (get_default_provider s.provider_registry_service).authorize
        (authorization_input c d)
      ≡ ok (AuthorizePaymentResult.approved provider reference)) where
  pub call_fresh :
      call_authorize (get_default_provider s.provider_registry_service) (authorization_input c d) w
      ≡ (
        ok (AuthorizePaymentResult.approved provider reference),
        after_call (authorization_input c d) w,
      )
  unfolding call_authorize
  call_fresh = ground (arith, approves, interleave_quiet w quiet)

  pub authorize_fresh :
      (b : ResponseBody) (v : World)
      → persist_authorization s c d
          (AuthorizePaymentResult.approved provider reference)
          w.now
          (after_call (authorization_input c d) w)
        ≡ (ok b, v)
      → authorize_and_persist s c d w ≡ (ok (record { status_code = 201; body = some b }), v)
  unfolding ◌>>=◌ authorize_and_persist ensure_transition
  authorize_fresh b v e =
      let t =
        transaction_quiet
          (persist_authorization s c d (AuthorizePaymentResult.approved provider reference) w.now)
          (after_call (authorization_input c d) w) quiet e in
      ground (arith, call_fresh, t)
