-- ===== src/Payments/Replies.antt =====
-- What `create` and `capture` answer when their idempotency key has been used before.
use payment_orchestration_pl.Prelude.{ℕ, ◌+◌, ◌≡◌, ◌≢◌, ◌∙◌, ap, refl, false, Option, some, get_or}
use payment_orchestration_pl.Errors.{Thrown, Result, ok, err}
use payment_orchestration_pl.DataAccess.Rows.{
  processing, completed, IdempotencyRecord, ResponseBody,
}
use payment_orchestration_pl.DataAccess.Idempotency.{find_record}
use payment_orchestration_pl.Exec.{World, ◌>>=◌, head_fault, healthy, interleave, run_others}
use payment_orchestration_pl.Idempotency.Service.{
  IdempotencyService, IdempotencyDecision, StartInput, reused_key, in_progress,
  normalize_response_body, is_processing_expired, get_existing_or_start,
}
use payment_orchestration_pl.Exec.Laws.{bind-ok, bind-err}
use payment_orchestration_pl.Idempotency.Decisions.{
  decide_completed, decide_reused, decide_in_progress,
}
use payment_orchestration_pl.Payments.Commands.{
  CreatePaymentCommand, CapturePaymentCommand, PaymentResult,
}
use payment_orchestration_pl.Payments.Service.{
  PaymentsService, create_input, create_by_decision, create, capture_input, capture_by_decision,
  capture,
}

-- The record that a request reads first, and what the database answers.
pub record Reads (input : StartInput) (w : World) (r : IdempotencyRecord) : Type 0 where
  pub answers : head_fault w.ticks ≡ healthy
  pub found :
      find_record input.scope input.idempotency_key (run_others w.ticks w.db).idempotency_keys
      ≡ some r

-- The outcome of a request that wrote nothing and called no provider.
pub record Untouched (x : Result PaymentResult × World) (answer : Result PaymentResult) (w : World)
    : Type 0 where
  pub answer_is : x.0 ≡ answer
  pub same_db : x.1.db ≡ run_others w.ticks w.db
  pub same_calls : x.1.calls ≡ w.calls

Untouched-of :
    {x : Result PaymentResult × World} {answer : Result PaymentResult} {v : World} (w : World)
    → x ≡ (answer, v)
    → v.db ≡ run_others w.ticks w.db
    → v.calls ≡ w.calls
    → Untouched x answer w
Untouched-of w e d c = record {
  answer_is = ap (λ y. y.0) e;
  same_db = ap (λ y. y.1.db) e ∙ d;
  same_calls = ap (λ y. y.1.calls) e ∙ c;
}

abbrev pub replayed : IdempotencyService → IdempotencyRecord → PaymentResult
replayed s r = record {
  status_code = get_or r.response_status_code 0;
  body = normalize_response_body s r.response_body;
}

-- `create` after its idempotency decision, which draws on the reserved payment id.
create_decided :
    (s : PaymentsService) (c : CreatePaymentCommand) (w : World) {v : World} {code : ℕ}
    {body : Option ResponseBody}
    → get_existing_or_start s.idempotency_service
        (create_input s c (w.uuid w.drawn))
        (record w { drawn = w.drawn + 1 })
      ≡ (ok (IdempotencyDecision.completed code body), v)
    → create s c w ≡ (ok (record { status_code = code; body = body }), v)
unfolding ◌>>=◌ create create_by_decision
create_decided s c w h =
    bind-ok (get_existing_or_start s.idempotency_service (create_input s c (w.uuid w.drawn)))
      (create_by_decision s c) h

create_refused :
    (s : PaymentsService) (c : CreatePaymentCommand) (w : World) {v : World} {e : Thrown}
    → get_existing_or_start s.idempotency_service
        (create_input s c (w.uuid w.drawn))
        (record w { drawn = w.drawn + 1 })
      ≡ (err e, v)
    → create s c w ≡ (err e, v)
unfolding ◌>>=◌ create
create_refused s c w h =
    bind-err (get_existing_or_start s.idempotency_service (create_input s c (w.uuid w.drawn)))
      (create_by_decision s c) h

capture_decided :
    (s : PaymentsService) (c : CapturePaymentCommand) (w : World) {v : World} {code : ℕ}
    {body : Option ResponseBody}
    → get_existing_or_start s.idempotency_service (capture_input s c) w
      ≡ (ok (IdempotencyDecision.completed code body), v)
    → capture s c w ≡ (ok (record { status_code = code; body = body }), v)
unfolding ◌>>=◌ capture capture_by_decision
capture_decided s c w h =
    bind-ok (get_existing_or_start s.idempotency_service (capture_input s c))
      (capture_by_decision s c) h

module _ (s : PaymentsService) (c : CreatePaymentCommand) (w : World) (r : IdempotencyRecord)
    (reads : Reads (create_input s c (w.uuid w.drawn)) w r) where
  -- Where the first lookup is answered with a completed record of the same hash, `create` replays
  -- its stored response, writes nothing and calls no provider.
  pub create_replays :
      r.request_hash ≡ (create_input s c (w.uuid w.drawn)).request_hash
      → r.status ≡ completed
      → Untouched (create s c w) (ok (replayed s.idempotency_service r)) w
  create_replays same h =
      Untouched-of w
        (create_decided s c w (
          decide_completed s.idempotency_service (create_input s c (w.uuid w.drawn))
            (record w { drawn = w.drawn + 1 }) r reads.answers reads.found same h))
        refl refl

  -- Where the first lookup is answered with a record of another hash, `create` refuses with status
  -- 409, writes nothing and calls no provider.
  pub create_reused :
      r.request_hash ≢ (create_input s c (w.uuid w.drawn)).request_hash
      → Untouched (create s c w) (err reused_key) w
  create_reused differs =
      Untouched-of w
        (create_refused s c w (
          decide_reused s.idempotency_service (create_input s c (w.uuid w.drawn))
            (record w { drawn = w.drawn + 1 }) r reads.answers reads.found differs))
        refl refl

  -- Where the first lookup is answered with a processing record of the same hash whose lease has
  -- not expired, `create` refuses with status 409, writes nothing and calls no provider.
  pub create-in_progress :
      r.request_hash ≡ (create_input s c (w.uuid w.drawn)).request_hash
      → r.status ≡ processing
      → is_processing_expired (interleave w).now r ≡ false
      → Untouched (create s c w) (err in_progress) w
  create-in_progress same h leased =
      Untouched-of w
        (create_refused s c w (
          decide_in_progress s.idempotency_service (create_input s c (w.uuid w.drawn))
            (record w { drawn = w.drawn + 1 }) r reads.answers reads.found same h leased))
        refl refl

module _ (s : PaymentsService) (c : CapturePaymentCommand) (w : World) (r : IdempotencyRecord)
    (reads : Reads (capture_input s c) w r) where
  -- Where the first lookup is answered with a completed record of the same hash, `capture` replays
  -- its stored response, writes nothing and calls no provider.
  pub capture_replays :
      r.request_hash ≡ (capture_input s c).request_hash
      → r.status ≡ completed
      → Untouched (capture s c w) (ok (replayed s.idempotency_service r)) w
  capture_replays same h =
      Untouched-of w
        (capture_decided s c w (
          decide_completed s.idempotency_service (capture_input s c) w r reads.answers reads.found
            same h))
        refl refl
