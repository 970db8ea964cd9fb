-- ===== src/Worker.antt =====
-- services/payment-service/src/workers/outbox-publisher-worker.ts: the polling of the outbox. The
-- lifecycle of the worker is in Worker.Lifecycle.
pub mod Lifecycle
pub mod Backoff
pub mod Attempts
pub mod Batches
pub mod Polling
pub mod Keeps
pub mod Progress
mod Tests
pub mod Delivery
pub mod Settlements
use payment_orchestration_pl.Prelude.{ℕ, ◌+◌, ◌*◌, ◌^◌, String, Bool, Option, List, [], ◌∷◌, min}
use payment_orchestration_pl.Errors.{Thrown, other_error, Result}
use payment_orchestration_pl.DataAccess.Rows.{OutboxEventRecord}
use payment_orchestration_pl.DataAccess.Outbox.{
  fetch_pending_batch, mark_published, mark_publish_failed,
}
use payment_orchestration_pl.Exec.{
  World, M, pure, throw, ◌>>=◌, ◌>>◌, lift, gets, query, transaction, head_elapsed, later_ticks,
}

-- The worker's configuration.
pub record WorkerConfig : Type 0 where
  pub poll_interval_ms : ℕ
  pub batch_size : ℕ
  pub max_attempts : ℕ
  pub retry_base_delay_ms : ℕ
  pub retry_max_delay_ms : ℕ

-- How `RabbitMqPublisher.publish` ends: it resolves, or rejects with an error that says whether
-- the publish was attempted.
pub data PublishOutcome : Type 0 where
  confirmed : PublishOutcome
  failed : (message : String) → PublishOutcome
  not_attempted : (message : String) → PublishOutcome

-- The exact product: a double holds `base * 2 ** exponent` without rounding, since the exponent
-- only shifts.
unfoldable pub retry_delay_for : WorkerConfig → ℕ → ℕ
retry_delay_for config attempts =
    min config.retry_max_delay_ms (config.retry_base_delay_ms * 2 ^ min attempts 52)

-- What the worker is given: the broker's answer to each event, the channel (or the error of
-- `getConfirmChannel`), the order of UUIDs, and the rows that other pollers have locked.
pub record Surroundings : Type 0 where
  pub publish : OutboxEventRecord → PublishOutcome
  pub channel : Result (Unit {0})
  pub id_le : String → String → Bool
  pub locked : OutboxEventRecord → Bool

-- `await this.rabbitMqPublisher.publish(event)`: the clock moves on.
unfoldable pub await_publish : Surroundings → OutboxEventRecord → M PublishOutcome
await_publish env event w = (
  Result.ok (env.publish event),
  record w { now = w.now + head_elapsed w.ticks; ticks = later_ticks w.ticks },
)

module _ (config : WorkerConfig) where
  -- The handling of one outcome; an event that was not attempted ends the batch by an error.
  unfoldable pub settle_event : OutboxEventRecord → PublishOutcome → M (Unit {0})
  settle_event event confirmed = query (mark_published event.id) >> pure tt
  settle_event event (not_attempted message) = throw (other_error message)
  settle_event event (failed message) = do
    now ← gets (λ w. w.now)
    query (
        mark_publish_failed (record {
          id = event.id;
          last_error = message;
          max_attempts = config.max_attempts;
          next_retry_at = now + retry_delay_for config event.attempts;
        }))
    pure tt

  unfoldable pub publish_event : Surroundings → OutboxEventRecord → M (Unit {0})
  publish_event env event = do outcome ← await_publish env event; settle_event event outcome

  -- The `for` loop over the batch.
  unfoldable pub publish_all : Surroundings → List OutboxEventRecord → M (Unit {0})
  publish_all env [] = pure tt
  publish_all env (event ∷ events) = publish_event env event >> publish_all env events

  unfoldable pub poll_batch : Surroundings → M (Unit {0})
  poll_batch env = do
    events ← query (fetch_pending_batch env.id_le config.batch_size env.locked)
    publish_all env events

  unfoldable pub poll_once : Surroundings → M (Unit {0})
  poll_once env = do lift env.channel; transaction (poll_batch env)
