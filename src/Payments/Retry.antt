-- ===== src/Payments/Retry.antt =====
-- A client that repeats a `create` whose first answer it may not have seen.
use payment_orchestration_pl.Prelude.{String, ◌≡◌, arith}
use payment_orchestration_pl.Errors.{Result}
use payment_orchestration_pl.Exec.{World}
use payment_orchestration_pl.Idempotency.Service.{normalize_response_body}
use payment_orchestration_pl.Payments.Commands.{CreatePaymentCommand, PaymentResult}
use payment_orchestration_pl.Payments.Service.{PaymentsService, create, create_input}
use payment_orchestration_pl.Payments.Replies.{Reads, create_replays}
use payment_orchestration_pl.Payments.Fresh.Steps.{IsClear}
use payment_orchestration_pl.Payments.Fresh.{create_succeeds}

-- The second answer is the first; the database and the log of provider calls stay as the first
-- run left them, so the provider is called once.
pub record SameAnswer (x y : Result PaymentResult × World) : Type 0 where
  pub answer : y.0 ≡ x.0
  pub same_db : y.1.db ≡ x.1.db
  pub same_calls : y.1.calls ≡ x.1.calls

-- Under the same conditions, repeating a `create` gives the same answer, stores nothing more, and
-- does not call the provider again.
pub create_twice :
    (s : PaymentsService) (c : CreatePaymentCommand) (provider reference : String) (w : World)
    → IsClear s c provider reference w
    → SameAnswer (create s c w) (create s c (create s c w).1)
unfolding normalize_response_body
create_twice s c provider reference w clear =
    let k = create_succeeds s c provider reference w clear in
    let w' : World = (create s c w).1 in
    let reads : Reads (create_input s c (w'.uuid w'.drawn)) w' k.stored = record {
      answers = ground (arith, k.still_quiet);
      found = ground (arith, k.still_quiet, k.found);
    } in
    let u = create_replays s c w' k.stored reads k.same_hash k.done in
    record {
      answer = ground (arith, u.answer_is, k.answer, k.code, k.body);
      same_db = ground (arith, u.same_db, k.still_quiet);
      same_calls = u.same_calls;
    }
