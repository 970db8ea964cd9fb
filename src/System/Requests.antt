-- ===== src/System/Requests.antt =====
-- The three operations of the payments service, run against any friendly environment.
use payment_orchestration_pl.Prelude.{ℕ, String, refl, Option, none, some}
use payment_orchestration_pl.Errors.{Thrown}
use payment_orchestration_pl.DataAccess.Rows.{Db, IdempotencyStatus, IdempotencyRecord}
use payment_orchestration_pl.DataAccess.Idempotency.{
  find_by_scope_and_key, TryInsertProcessingInput, MarkFailedInput,
}
use payment_orchestration_pl.DataAccess.Idempotency as Data
use payment_orchestration_pl.Exec.{World, await, transaction}
use payment_orchestration_pl.Exec.Keeps.{Keeps, keeps_rules, Keeps-try_catch}
use payment_orchestration_pl.Providers.Contract.{
  PaymentProvider, AuthorizePaymentInput, AuthorizePaymentResult,
}
use payment_orchestration_pl.Idempotency.Service.{
  IdempotencyService, IdempotencyDecision, Started, started, StartInput, decide_by_status,
  decide_from_existing, start_or_resolve, start, resolved, start_unless, get_existing_or_start,
  mark_failed, or_lost, started_or_in_progress,
}
use payment_orchestration_pl.Payments.Commands.{
  CreatePaymentCommand, CapturePaymentCommand, call_authorize, or_throw,
}
use payment_orchestration_pl.Payments.Service.{
  PaymentsService, persist_authorization, authorize_and_persist, fail_and_rethrow,
  create_by_decision, create, capture_in_transaction, lock_and_capture, capture_by_decision,
  capture,
}
use payment_orchestration_pl.System.{Step, Reach, Friendly}
use payment_orchestration_pl.System.Runs.{
  Reached, interleave-Reached, Keeps-random_uuid, Keeps-transaction, Keeps-await,
}
use payment_orchestration_pl.System.Bodies.{
  friendly-persist_authorization, friendly-capture_in_transaction,
}

module _ (db₀ : Db) where
  found-Keeps : (scope key : String) → Keeps (Reached db₀) (await (find_by_scope_and_key scope key))
  unfolding find_by_scope_and_key
  found-Keeps scope key = Keeps-await db₀ _ (λ now db. Reach.here)

  insert-Keeps :
      (input : TryInsertProcessingInput) (id : String)
      → Keeps (Reached db₀) (await (Data.try_insert_processing input id))
  insert-Keeps input id =
      Keeps-await db₀ _ (λ now db. Reach.next Reach.here (Step.start input id now refl))

  reactivate-Keeps :
      (id hash : String) (expires : ℕ) (token : String)
      → Keeps (Reached db₀) (await (Data.reactivate_failed id hash expires token))
  reactivate-Keeps id hash expires token =
      Keeps-await db₀ _
        (λ now db. Reach.next Reach.here (Step.reactivate id hash expires token now refl))

  take_over-Keeps :
      (id hash : String) (expires : ℕ) (token : String)
      → Keeps (Reached db₀) (await (Data.takeover_expired_processing id hash expires token))
  take_over-Keeps id hash expires token =
      Keeps-await db₀ _
        (λ now db. Reach.next Reach.here (Step.take_over id hash expires token now refl))

  fail-Keeps : (input : MarkFailedInput) → Keeps (Reached db₀) (await (Data.mark_failed input))
  fail-Keeps input = Keeps-await db₀ _ (λ now db. Reach.next Reach.here (Step.fail input now refl))

  started-Keeps : (o : Option IdempotencyRecord) → Keeps (Reached db₀) (started_or_in_progress o)
  started-Keeps none = search keeps_rules
  started-Keeps (some r) = search keeps_rules

  or_lost-Keeps : (o : Option IdempotencyRecord) → Keeps (Reached db₀) (or_lost o)
  or_lost-Keeps none = search keeps_rules
  or_lost-Keeps (some r) = search keeps_rules

  or_throw-Keeps : {A : Type 0} (e : Thrown) (o : Option A) → Keeps (Reached db₀) (or_throw e o)
  or_throw-Keeps e none = search keeps_rules
  or_throw-Keeps e (some a) = search keeps_rules

ruleset reached_rules = (
  keeps_rules, Keeps-random_uuid, found-Keeps, insert-Keeps, reactivate-Keeps, take_over-Keeps,
  fail-Keeps, started-Keeps, or_lost-Keeps, or_throw-Keeps,
)

module _ (db₀ : Db) (s : IdempotencyService) where
  decide_by_status-Keeps :
      (status : IdempotencyStatus) (r : IdempotencyRecord) (hash : String)
      → Keeps (Reached db₀) (decide_by_status s status r hash)
  unfolding decide_by_status
  decide_by_status-Keeps IdempotencyStatus.completed r hash = search reached_rules
  decide_by_status-Keeps _ r hash = search reached_rules depth 8

  decide_from_existing-Keeps :
      (r : IdempotencyRecord) (hash : String) → Keeps (Reached db₀) (decide_from_existing s r hash)
  unfolding decide_from_existing
  decide_from_existing-Keeps r hash = search (reached_rules, decide_by_status-Keeps)

  again-Keeps :
      (input : StartInput) (o : Option IdempotencyRecord) → Keeps (Reached db₀) (resolved s input o)
  unfolding resolved
  again-Keeps input none = search reached_rules
  again-Keeps input (some r) = search (decide_from_existing-Keeps)

  start_or_resolve-Keeps :
      (input : StartInput) (o : Option IdempotencyRecord)
      → Keeps (Reached db₀) (start_or_resolve s input o)
  unfolding start_or_resolve
  start_or_resolve-Keeps input none = search (reached_rules, again-Keeps)
  start_or_resolve-Keeps input (some r) = search reached_rules

  start-Keeps : (input : StartInput) → Keeps (Reached db₀) (start s input)
  unfolding start
  start-Keeps input = search (reached_rules, start_or_resolve-Keeps) depth 9

  existing-Keeps :
      (input : StartInput) (o : Option IdempotencyRecord)
      → Keeps (Reached db₀) (start_unless s input o)
  unfolding start_unless
  existing-Keeps input none = search (start-Keeps)
  existing-Keeps input (some r) = search (decide_from_existing-Keeps)

  get_existing_or_start-Keeps :
      (input : StartInput) → Keeps (Reached db₀) (get_existing_or_start s input)
  unfolding get_existing_or_start
  get_existing_or_start-Keeps input = search (reached_rules, existing-Keeps)

module _ (db₀ : Db) (s : PaymentsService) where
  call_authorize-Keeps :
      (provider : PaymentProvider) (input : AuthorizePaymentInput)
      → Keeps (Reached db₀) (call_authorize provider input)
  unfolding call_authorize
  call_authorize-Keeps provider input = record { keeps = λ w h. interleave-Reached db₀ w h }

  authorization-Keeps :
      (c : CreatePaymentCommand) (d : Started) (answer : AuthorizePaymentResult) (now : ℕ)
      → Keeps (Reached db₀) (transaction (persist_authorization s c d answer now))
  authorization-Keeps c d answer now =
      Keeps-transaction db₀ _
        (λ w w' b e. Reach.next Reach.here (Step.create s c d answer now w w' b e refl refl))
        (friendly-persist_authorization s c d answer now)

  capture-transaction-Keeps :
      (c : CapturePaymentCommand) (d : Started)
      → Keeps (Reached db₀) (transaction (capture_in_transaction s c d))
  capture-transaction-Keeps c d =
      Keeps-transaction db₀ _
        (λ w w' b e. Reach.next Reach.here (Step.capture s c d w w' b e refl refl))
        (friendly-capture_in_transaction s c d)

  fail_and_rethrow-Keeps : (d : Started) (e : Thrown) → Keeps (Reached db₀) (fail_and_rethrow s d e)
  unfolding fail_and_rethrow mark_failed
  fail_and_rethrow-Keeps d e = search (reached_rules, Keeps-try_catch) depth 10

  authorize_and_persist-Keeps :
      (c : CreatePaymentCommand) (d : Started) → Keeps (Reached db₀) (authorize_and_persist s c d)
  unfolding authorize_and_persist
  authorize_and_persist-Keeps c d =
      search (reached_rules, call_authorize-Keeps, authorization-Keeps) depth 9

  create_by_decision-Keeps :
      (c : CreatePaymentCommand) (x : IdempotencyDecision)
      → Keeps (Reached db₀) (create_by_decision s c x)
  unfolding create_by_decision
  create_by_decision-Keeps c (started d) =
      search (Keeps-try_catch, authorize_and_persist-Keeps, fail_and_rethrow-Keeps)
  create_by_decision-Keeps c _ = search keeps_rules

  capture_by_decision-Keeps :
      (c : CapturePaymentCommand) (x : IdempotencyDecision)
      → Keeps (Reached db₀) (capture_by_decision s c x)
  unfolding capture_by_decision lock_and_capture
  capture_by_decision-Keeps c (started d) =
      search (reached_rules, Keeps-try_catch, capture-transaction-Keeps, fail_and_rethrow-Keeps)
  capture_by_decision-Keeps c _ = search keeps_rules

-- Whatever a friendly environment, one whose changes are sequences of the system's steps, does
-- between the statements of `create`, and wherever the database or the provider fails, all that it
-- leaves in the database is a sequence of the system's steps.
pub create-Reach :
    (s : PaymentsService) (c : CreatePaymentCommand) (w : World)
    → Friendly w.ticks
    → Reach w.db (create s c w).1.db
unfolding create
create-Reach s c w h =
    let k : Keeps (Reached w.db) (create s c) =
      search (reached_rules, get_existing_or_start-Keeps, create_by_decision-Keeps) in
    (k.keeps w (Reach.here, h)).0

-- The same of `capture`: in any friendly environment, and wherever the database or the provider
-- fails, all that it leaves in the database is a sequence of the system's steps.
pub capture-Reach :
    (s : PaymentsService) (c : CapturePaymentCommand) (w : World)
    → Friendly w.ticks
    → Reach w.db (capture s c w).1.db
unfolding capture
capture-Reach s c w h =
    let k : Keeps (Reached w.db) (capture s c) =
      search (reached_rules, get_existing_or_start-Keeps, capture_by_decision-Keeps) in
    (k.keeps w (Reach.here, h)).0
