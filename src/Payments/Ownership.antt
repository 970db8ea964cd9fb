-- ===== src/Payments/Ownership.antt =====
-- Ownership fencing: the transaction of a request whose token no longer owns its record.
use payment_orchestration_pl.Prelude.{ℕ, ◌≡◌, ◌≢◌, refl, none}
use payment_orchestration_pl.Errors.{Thrown, Result, ok, err}
use payment_orchestration_pl.Tables.{first_where}
use payment_orchestration_pl.DataAccess.Idempotency.{is_owned}
use payment_orchestration_pl.Exec.{World, M, interleave, run_others, transaction}
use payment_orchestration_pl.Providers.Contract.{AuthorizePaymentResult}
use payment_orchestration_pl.Idempotency.Service.{Started}
use payment_orchestration_pl.Payments.Commands.{CreatePaymentCommand, CapturePaymentCommand}
use payment_orchestration_pl.Payments.Service.{
  PaymentsService, persist_authorization, capture_in_transaction,
}
use payment_orchestration_pl.Payments.Commits.Create.{persist_authorization-Commits}
use payment_orchestration_pl.Payments.Commits.Capture.{capture_in_transaction-Commits}

-- A transaction that threw, and left the database as the other requests had made it.
pub record RollsBack {A : Type 0} (x : Result A × World) (w : World) : Type 0 where
  pub error : Thrown
  pub throws : x.0 ≡ err error
  pub same_db : x.1.db ≡ run_others w.ticks w.db

-- A transaction whose body cannot resolve rolls back.
pub transaction-RollsBack :
    {A : Type 0} (body : M A) (w : World)
    → ((a : A) (w' : World) → body (interleave w) ≢ (ok a, w'))
    → RollsBack (transaction body w) w
unfolding transaction
transaction-RollsBack {A} body w never = go (body (interleave w)) refl
  where
    go : (x : Result A × World) → body (interleave w) ≡ x → RollsBack (transaction body w) w
    go (ok a, v) e = absurd (never a v e)
    go (err t, v) e = record {
      error = t;
      throws = rw (e, transaction) refl;
      same_db = rw (e, transaction) refl;
    }

-- No record is held by the request's token in the database that its transaction finds.
abbrev pub IsStale : Started → World → Type 0
IsStale d w =
    first_where (is_owned d.record_id d.processing_token) (run_others w.ticks w.db).idempotency_keys
    ≡ none

-- The transaction of a `create` whose token owns no record throws, and leaves the database as the
-- other requests made it.
pub authorization-RollsBack :
    (s : PaymentsService) (c : CreatePaymentCommand) (d : Started) (answer : AuthorizePaymentResult)
    (now : ℕ) (w : World)
    → IsStale d w
    → RollsBack (transaction (persist_authorization s c d answer now) w) w
authorization-RollsBack s c d answer now w stale =
    transaction-RollsBack (persist_authorization s c d answer now) w λ b w' e.
      let k = (persist_authorization-Commits s c d answer now (interleave w)).yields b w' e in
      cc (stale, k.owned)

-- The transaction of a `capture` whose token owns no record throws, and leaves the database as the
-- other requests made it.
pub capture-RollsBack :
    (s : PaymentsService) (c : CapturePaymentCommand) (d : Started) (w : World)
    → IsStale d w
    → RollsBack (transaction (capture_in_transaction s c d) w) w
capture-RollsBack s c d w stale = transaction-RollsBack (capture_in_transaction s c d) w λ b w' e.
    let k = (capture_in_transaction-Commits s c d (interleave w)).yields b w' e in
    cc (stale, k.owned)
