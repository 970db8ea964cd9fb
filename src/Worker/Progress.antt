-- ===== src/Worker/Progress.antt =====
-- What a polling of services/payment-service/src/workers/outbox-publisher-worker.ts achieves where
-- the broker can be reached.
use mathlib.Core.Path.{subst}
use payment_orchestration_pl.Prelude.{
  ◌+◌, String, ◌≡◌, refl, sym, ap, Bool, true, false, some, List, [], ◌∷◌, arith, All, eq_iff,
}
use payment_orchestration_pl.Errors.{Result, ok}
use payment_orchestration_pl.DataAccess.Rows.{OutboxEventRecord, Db}
use payment_orchestration_pl.DataAccess.Outbox.{
  MarkPublishFailedInput, is_pending, is_pending_event, as_published, as_publish_failed,
  mark_published, mark_publish_failed, fetch_pending_batch,
}
use payment_orchestration_pl.Exec.{
  World, ◌>>=◌, query, transaction, interleave, head_elapsed, later_ticks, head_fault, healthy,
}
use payment_orchestration_pl.Exec.Keeps.{Keeps}
use payment_orchestration_pl.Exec.Laws.{bind-ok}
use payment_orchestration_pl.Worker.Keeps.{publish_all-Keeps}
use payment_orchestration_pl.Worker.Polling.{find_event, found_before}
use payment_orchestration_pl.Worker.{
  WorkerConfig, PublishOutcome, confirmed, failed, not_attempted, Surroundings, await_publish,
  settle_event, publish_event, publish_all, poll_batch,
}

-- Whether the publication was attempted.
abbrev pub is_attempted : PublishOutcome → Bool
is_attempted (not_attempted _) = false
is_attempted _ = true

-- The row is never claimed again.
abbrev pub IsSettled : String → Db → Type 0
IsSettled id db = (e : OutboxEventRecord) → find_event id db ≡ some e → is_pending e.status ≡ false

publish-Keeps : (i id : String) → Keeps (λ w. IsSettled i w.db) (query (mark_published id))
unfolding ◌>>=◌ mark_published
publish-Keeps i id = record {
  keeps = λ w h e' found.
      let (e, f, shape, is) =
        found_before i (is_pending_event id) (as_published w.db_now) w.db.outbox_events e'
          (λ x. refl) found in
      ground (arith, shape, h e f);
}

fail-Keeps :
    (i : String) (input : MarkPublishFailedInput)
    → Keeps (λ w. IsSettled i w.db) (query (mark_publish_failed input))
unfolding ◌>>=◌ mark_publish_failed
fail-Keeps i input = record {
  keeps = λ w h e' found.
      let (e, f, shape, is) =
        found_before i (is_pending_event input.id) (as_publish_failed input) w.db.outbox_events e'
          (λ x. refl) found in
      ground (arith, shape, h e f);
}

module _ (config : WorkerConfig) (env : Surroundings) where
  -- The loop or the transaction has ended without an error, and what was confirmed is settled.
  abbrev pub Ends : List OutboxEventRecord → Result (Unit {0}) × World → Type 0
  Ends batch x = (x.0 ≡ ok tt) × All (λ e. env.publish e ≡ confirmed → IsSettled e.id x.1.db) batch

  all-Keeps :
      (i : String) (events : List OutboxEventRecord)
      → Keeps (λ w. IsSettled i w.db) (publish_all config env events)
  unfolding ◌>>=◌ await_publish
  all-Keeps i events =
      publish_all-Keeps config env (λ w. IsSettled i w.db) (λ event. record { keeps = λ w h. h })
        (publish-Keeps i) (fail-Keeps i) events

  -- An attempted publication is settled without an error, and a confirmed one settles its row.
  settle_event_lem :
      (event : OutboxEventRecord) (outcome : PublishOutcome) (w : World)
      → is_attempted outcome ≡ true
      → ((settle_event config event outcome w).0 ≡ ok tt)
        × (outcome ≡ confirmed → IsSettled event.id (settle_event config event outcome w).1.db)
  unfolding ◌>>=◌ settle_event mark_published mark_publish_failed
  settle_event_lem event confirmed w h = (
    refl,
    λ _ e' found.
        let (e, f, shape, is) =
          found_before event.id (is_pending_event event.id) (as_published w.db_now)
            w.db.outbox_events e' (λ x. refl) found in
        ground (arith, shape, eq_iff e.id event.id, is),
  )
  settle_event_lem event (failed message) w h = (refl, λ k. absurd (ground arith))
  settle_event_lem event (not_attempted message) w h = absurd (ground arith)

  publish_event_lem :
      (event : OutboxEventRecord) (w : World)
      → is_attempted (env.publish event) ≡ true
      → ((publish_event config env event w).0 ≡ ok tt)
        × (env.publish event ≡ confirmed
            → IsSettled event.id (publish_event config env event w).1.db)
  unfolding ◌>>=◌ publish_event await_publish
  publish_event_lem event w h =
      settle_event_lem event (env.publish event)
        (record w { now = w.now + head_elapsed w.ticks; ticks = later_ticks w.ticks }) h

  publish_all-cons :
      (e : OutboxEventRecord) (es : List OutboxEventRecord) (w : World)
      → (publish_event config env e w).0 ≡ ok tt
      → publish_all config env (e ∷ es) w
        ≡ publish_all config env es (publish_event config env e w).1
  unfolding publish_all
  publish_all-cons e es w h =
      bind-ok (publish_event config env e) (λ _. publish_all config env es)
        (ap (λ r. (r, (publish_event config env e w).1)) h)

  -- Where every publication of the batch is attempted, the loop ends without an error, and each
  -- confirmed event's row is settled.
  pub publish_all_lem :
      (events : List OutboxEventRecord) (w : World)
      → All (λ e. is_attempted (env.publish e) ≡ true) events
      → Ends events (publish_all config env events w)
  unfolding publish_all ◌>>=◌
  publish_all_lem [] w h = (refl, tt)
  publish_all_lem (e ∷ es) w h =
      let (fine, done) = publish_event_lem e w h.0 in
      let (r, later) = publish_all_lem es (publish_event config env e w).1 h.1 in
      subst (Ends (e ∷ es)) (sym (publish_all-cons e es w fine))
        (r, ((λ c. (all-Keeps e.id es).keeps (publish_event config env e w).1 (done c)), later))

  -- Where the database answers and every publication of the claimed batch is attempted, the
  -- polling commits without an error, and no confirmed event of the batch is PENDING after it.
  pub poll_batch-commits :
      (batch : List OutboxEventRecord) (w : World)
      → fetch_pending_batch env.id_le config.batch_size env.locked
          (interleave w).db_now
          (interleave w).db
        ≡ (ok batch, (interleave w).db)
      → head_fault w.ticks ≡ healthy
      → All (λ e. is_attempted (env.publish e) ≡ true) batch
      → Ends batch (transaction (poll_batch config env) w)
  unfolding ◌>>=◌ poll_batch
  poll_batch-commits batch w fetched answers attempted =
      let (r, done) = publish_all_lem batch (interleave w) attempted in
      let body : poll_batch config env (interleave w)
          ≡ publish_all config env batch (interleave w) =
        ground (arith, fetched) in
      let whole : transaction (poll_batch config env) w
          ≡ (ok tt, (publish_all config env batch (interleave w)).1) =
        ground (arith, body, r, answers) in
      subst (Ends batch) (sym whole) (refl, done)
