-- ===== src/Worker/Delivery.antt =====
-- What a polling of services/payment-service/src/workers/outbox-publisher-worker.ts commits, and
-- when it commits nothing.
use mathlib.Core.List.{Memᴰ}
use mathlib.Core.Path.{subst}
use payment_orchestration_pl.Prelude.{String, ◌≡◌, ◌≢◌, refl, List, [], ◌∷◌, arith}
use payment_orchestration_pl.Errors.{Result, ok}
use payment_orchestration_pl.DataAccess.Rows.{OutboxEventRecord}
use payment_orchestration_pl.DataAccess.Outbox.{
  mark_published, mark_publish_failed, fetch_pending_batch,
}
use payment_orchestration_pl.Exec.{World, ◌>>=◌, lift, transaction, interleave}
use payment_orchestration_pl.Exec.Keeps.{Keeps, Keeps-bind, Keeps-lift}
use payment_orchestration_pl.Exec.Laws.{bind_inv}
use payment_orchestration_pl.Payments.Ownership.{RollsBack, transaction-RollsBack}
use payment_orchestration_pl.System.{Step, Reach, Friendly}
use payment_orchestration_pl.System.Runs.{
  Reached, InFriendly, later-Friendly, friendly-query, Keeps-transaction,
}
use payment_orchestration_pl.Worker.Keeps.{poll_batch-Keeps}
use payment_orchestration_pl.Worker.{
  WorkerConfig, not_attempted, Surroundings, await_publish, settle_event, publish_event,
  publish_all, poll_batch, poll_once,
}

module _ (config : WorkerConfig) (env : Surroundings) where
  poll_batch-steps :
      (w w' : World) (a : Unit {0}) → poll_batch config env w ≡ (ok a, w') → Reach w.db w'.db
  unfolding ◌>>=◌ await_publish fetch_pending_batch
  poll_batch-steps w w' a e =
      let k =
        poll_batch-Keeps config env (λ v. Reach w.db v.db) (λ event. record { keeps = λ v h. h })
          (λ id. record { keeps = λ v h. Reach.next h (Step.publish id v.db_now refl) })
          (λ input. record { keeps = λ v h. Reach.next h (Step.fail_publish input v.db_now refl) })
          (record { keeps = λ v h. h }) in
      subst (λ (x : Result (Unit {0}) × World). Reach w.db x.1.db) e (k.keeps w Reach.here)

  poll_batch-friendly : Keeps InFriendly (poll_batch config env)
  unfolding ◌>>=◌ await_publish
  poll_batch-friendly =
      poll_batch-Keeps config env InFriendly
        (λ event. record { keeps = λ w h. later-Friendly w.ticks h })
        (λ id. friendly-query (mark_published id))
        (λ input. friendly-query (mark_publish_failed input))
        (friendly-query (fetch_pending_batch env.id_le config.batch_size env.locked))

  -- In a friendly environment, all that a polling leaves in the database is a sequence of the
  -- system's steps.
  pub poll_once-Reach : (w : World) → Friendly w.ticks → Reach w.db (poll_once config env w).1.db
  unfolding poll_once
  poll_once-Reach w h =
      let k : Keeps (Reached w.db) (poll_once config env) =
        Keeps-bind (lift env.channel) (λ _. transaction (poll_batch config env))
          (Keeps-lift env.channel)
          (λ _.
            Keeps-transaction w.db (poll_batch config env) poll_batch-steps poll_batch-friendly) in
      (k.keeps w (Reach.here, h)).0

  not_attempted-throws :
      (event : OutboxEventRecord) (message : String)
      → env.publish event ≡ not_attempted message
      → (a : Unit {0}) (w w' : World) → publish_event config env event w ≢ (ok a, w')
  unfolding ◌>>=◌ publish_event await_publish settle_event
  not_attempted-throws event message not_sent a w w' e = absurd (ground (arith, not_sent, e))

  -- An event that is not attempted ends the loop by an error, wherever in the batch it is.
  publish_all-stops :
      (event : OutboxEventRecord) (message : String) (events : List OutboxEventRecord)
      → env.publish event ≡ not_attempted message
      → Memᴰ event events
      → (a : Unit {0}) (w w' : World) → publish_all config env events w ≢ (ok a, w')
  unfolding publish_all
  publish_all-stops event message [] not_sent m a w w' e = elim m [ ]
  publish_all-stops event message (x ∷ xs) not_sent (Memᴰ.head same) a w w' e =
      let (u, v, first, rest) =
        bind_inv (publish_event config env x) (λ _. publish_all config env xs) w w' a e in
      not_attempted-throws x message (rw (← same) not_sent) u w v first
  publish_all-stops event message (x ∷ xs) not_sent (Memᴰ.tail m) a w w' e =
      let (u, v, first, rest) =
        bind_inv (publish_event config env x) (λ _. publish_all config env xs) w w' a e in
      publish_all-stops event message xs not_sent m a v w' rest

  -- If an event of the claimed batch is not attempted, the polling throws and the database stays
  -- as the other requests made it.
  pub poll_batch-RollsBack :
      (event : OutboxEventRecord) (message : String) (batch : List OutboxEventRecord) (w : World)
      → fetch_pending_batch env.id_le config.batch_size env.locked
          (interleave w).db_now
          (interleave w).db
        ≡ (ok batch, (interleave w).db)
      → Memᴰ event batch
      → env.publish event ≡ not_attempted message
      → RollsBack (transaction (poll_batch config env) w) w
  unfolding ◌>>=◌ poll_batch
  poll_batch-RollsBack event message batch w fetched m not_sent =
      transaction-RollsBack (poll_batch config env) w λ a w' e.
        publish_all-stops event message batch not_sent m a (interleave w) w'
          (ground (arith, fetched, e))
