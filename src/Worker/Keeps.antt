-- ===== src/Worker/Keeps.antt =====
-- What the actions of a polling keep, action by action, for a predicate that its statements keep.
use payment_orchestration_pl.Prelude.{String, List, [], ◌∷◌}
use payment_orchestration_pl.DataAccess.Rows.{OutboxEventRecord}
use payment_orchestration_pl.DataAccess.Outbox.{
  MarkPublishFailedInput, mark_published, mark_publish_failed, fetch_pending_batch,
}
use payment_orchestration_pl.Exec.{World, query}
use payment_orchestration_pl.Exec.Keeps.{Keeps, keeps_rules}
use payment_orchestration_pl.Worker.{
  WorkerConfig, PublishOutcome, confirmed, failed, not_attempted, Surroundings, await_publish,
  settle_event, publish_event, publish_all, poll_batch,
}

module _ (config : WorkerConfig) (env : Surroundings) (P : World → Type 0)
    (await-Keeps : (event : OutboxEventRecord) → Keeps P (await_publish env event))
    (publish-Keeps : (id : String) → Keeps P (query (mark_published id)))
    (fail-Keeps : (input : MarkPublishFailedInput)
      → Keeps P (query (mark_publish_failed input))) where
  settle_event-Keeps :
      (event : OutboxEventRecord) (outcome : PublishOutcome)
      → Keeps P (settle_event config event outcome)
  unfolding settle_event
  settle_event-Keeps event confirmed = search (keeps_rules, publish-Keeps)
  settle_event-Keeps event (failed message) = search (keeps_rules, fail-Keeps) depth 8
  settle_event-Keeps event (not_attempted message) = search keeps_rules

  publish_event-Keeps : (event : OutboxEventRecord) → Keeps P (publish_event config env event)
  unfolding publish_event
  publish_event-Keeps event = search (keeps_rules, await-Keeps, settle_event-Keeps)

  pub publish_all-Keeps :
      (events : List OutboxEventRecord) → Keeps P (publish_all config env events)
  unfolding publish_all
  publish_all-Keeps [] = search keeps_rules
  publish_all-Keeps (e ∷ es) = search (keeps_rules, publish_event-Keeps e, publish_all-Keeps es)

  pub poll_batch-Keeps :
      Keeps P (query (fetch_pending_batch env.id_le config.batch_size env.locked))
      → Keeps P (poll_batch config env)
  unfolding poll_batch
  poll_batch-Keeps fetch-Keeps = search (keeps_rules, fetch-Keeps, publish_all-Keeps)
