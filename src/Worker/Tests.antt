-- ===== src/Worker/Tests.antt =====
-- The properties of the outbox worker on concrete batches.
use mathlib.Core.List.{Memᴰ}
use payment_orchestration_pl.Prelude.{String, ◌≡◌, refl, inl, Bool, true, false, List, [], ◌∷◌}
use payment_orchestration_pl.Errors.{ok}
use payment_orchestration_pl.Tables.{select_where}
use payment_orchestration_pl.DataAccess.Rows.{OutboxEventRecord, Db}
use payment_orchestration_pl.DataAccess.Outbox.{fetch_pending_batch, order_by_age, place}
use payment_orchestration_pl.Exec.{World, transaction}
use payment_orchestration_pl.Payments.Ownership.{RollsBack}
use payment_orchestration_pl.Worker.{
  WorkerConfig, PublishOutcome, confirmed, not_attempted, Surroundings, poll_batch,
}
use payment_orchestration_pl.Worker.Backoff.{IsBackoff, retry_delay_for-IsBackoff}
use payment_orchestration_pl.Worker.Batches.{IsOrder, IsBatch, fetch_pending_batch-IsBatch}
use payment_orchestration_pl.Worker.Polling.{IsJustified, poll_batch-IsJustified}
use payment_orchestration_pl.Worker.Delivery.{poll_batch-RollsBack}
use payment_orchestration_pl.Worker.Settlements.{IsPolled, poll_once-IsPolled}
use payment_orchestration_pl.Worker.Progress.{Ends, poll_batch-commits}
use payment_orchestration_pl.Worker.Lifecycle.{
  Event, new_worker, run, step, IsValid, run-IsValid, stop_ends_polling,
}
use payment_orchestration_pl.Samples.{empty_db, quiet_world, sample_event}

abbrev config : WorkerConfig
config = record {
  poll_interval_ms = 500;
  batch_size = 2;
  max_attempts = 3;
  retry_base_delay_ms = 1000;
  retry_max_delay_ms = 60000;
}

-- Texts ordered as equals, which is an order.
abbrev any_le : String → String → Bool
any_le a b = true

any_le-IsOrder : IsOrder any_le
any_le-IsOrder = record { total = λ a b. inl refl; transitive = λ a b c h k. refl }

abbrev broker : PublishOutcome → Surroundings
broker outcome = record {
  publish = λ e. outcome;
  channel = ok tt;
  id_le = any_le;
  locked = λ e. false;
}

abbrev event_db : Db
event_db = record empty_db { outbox_events = sample_event ∷ [] }

abbrev event_world : World
event_world = quiet_world event_db

retry_delay_for-IsBackoff_example : IsBackoff config
retry_delay_for-IsBackoff_example = retry_delay_for-IsBackoff config

fetch_pending_batch-IsBatch_example :
    (batch : List OutboxEventRecord) × (fetch_pending_batch any_le 2 (λ e. false) 1001 event_db
      ≡ (ok batch, event_db))
    × IsBatch any_le 2 1001 (λ e. false) event_db batch
fetch_pending_batch-IsBatch_example =
    fetch_pending_batch-IsBatch any_le any_le-IsOrder 2 1001 (λ e. false) event_db

poll_batch-IsJustified_example :
    IsJustified
      (broker confirmed)
      event_db
      (transaction (poll_batch config (broker confirmed)) event_world).1.db
poll_batch-IsJustified_example = poll_batch-IsJustified config (broker confirmed) event_world

poll_once-IsPolled_example : IsPolled config (broker confirmed) event_world
poll_once-IsPolled_example = poll_once-IsPolled config (broker confirmed) event_world tt

abbrev sample_batch : List OutboxEventRecord
sample_batch = sample_event ∷ []

fetches : fetch_pending_batch any_le 2 (λ e. false) 1001 event_db ≡ (ok sample_batch, event_db)
unfolding fetch_pending_batch select_where order_by_age place
fetches = refl

poll_batch-RollsBack_example :
    RollsBack
      (transaction (poll_batch config (broker (not_attempted "disconnected"))) event_world)
      event_world
poll_batch-RollsBack_example =
    poll_batch-RollsBack config (broker (not_attempted "disconnected")) sample_event "disconnected"
      sample_batch event_world fetches (Memᴰ.head refl) refl

poll_batch-commits_example :
    Ends config
      (broker confirmed)
      sample_batch
      (transaction (poll_batch config (broker confirmed)) event_world)
poll_batch-commits_example =
    poll_batch-commits config (broker confirmed) sample_batch event_world fetches refl (refl, tt)

abbrev a_life : List Event
a_life = Event.start ∷ Event.fire ∷ Event.stop ∷ Event.finish ∷ Event.settle_stop ∷ []

run-IsValid_example : IsValid (run new_worker a_life)
run-IsValid_example = run-IsValid a_life

abbrev started_events : List Event
started_events = Event.start ∷ Event.fire ∷ []

stop_ends_polling_example :
    (run (step (run new_worker started_events) Event.stop) (Event.start ∷ Event.fire ∷ [])).polls
    ≡ (run new_worker started_events).polls
stop_ends_polling_example =
    stop_ends_polling (run new_worker started_events) (Event.start ∷ Event.fire ∷ [])
      (run-IsValid started_events)
