-- ===== src/Worker/Settlements.antt =====
-- What a polling of services/payment-service/src/workers/outbox-publisher-worker.ts does to the
-- database, event by event, between the steps of the other requests.
use mathlib.Core.Path.{subst}
use payment_orchestration_pl.Prelude.{ℕ, ◌+◌, ◌≤◌, String, ◌≡◌, refl, ap, List, [], ◌∷◌, arith}
use payment_orchestration_pl.Errors.{Thrown, Result, ok, err}
use payment_orchestration_pl.DataAccess.Rows.{OutboxEventRecord, Db}
use payment_orchestration_pl.DataAccess.Outbox.{
  mark_published, mark_publish_failed, fetch_pending_batch,
}
use payment_orchestration_pl.Exec.{
  World, ◌>>=◌, lift, transaction, interleave, run_others, settle, head_fault, Fault, healthy,
  refused, unacknowledged,
}
use payment_orchestration_pl.Exec.Laws.{bind_inv}
use payment_orchestration_pl.System.{Reach, Friendly}
use payment_orchestration_pl.Worker.Delivery.{poll_once-Reach}
use payment_orchestration_pl.Worker.{
  WorkerConfig, PublishOutcome, confirmed, failed, not_attempted, Surroundings, retry_delay_for,
  await_publish, settle_event, publish_event, publish_all, poll_batch, poll_once,
}

module _ (config : WorkerConfig) (env : Surroundings) (since : ℕ) where
  -- A confirmed event is marked as published; one whose publication has failed gets an attempt more,
  -- with the delay counted from a time that is not before `since`.
  pub data SettlesEvent (event : OutboxEventRecord) (db : Db) : Db → Type 0 where
    publishes :
        (db_now : ℕ)
        → env.publish event ≡ confirmed
        → SettlesEvent event db (mark_published event.id db_now db).1
    postpones :
        (message : String) (now db_now : ℕ)
        → env.publish event ≡ failed message
        → since ≤ now
        → SettlesEvent event db
            (mark_publish_failed
              (record {
                id = event.id;
                last_error = message;
                max_attempts = config.max_attempts;
                next_retry_at = now + retry_delay_for config event.attempts;
              })
              db_now
              db).1

  -- Each event of the batch, in its order.
  pub data Settles : List OutboxEventRecord → Db → Db → Type 0 where
    nothing : {db : Db} → Settles [] db db
    then :
        {event : OutboxEventRecord} {events : List OutboxEventRecord} {db db' db'' : Db}
        → SettlesEvent event db db'
        → Settles events db' db''
        → Settles (event ∷ events) db db''

  abbrev SettledBy : OutboxEventRecord → World → World → Type 0
  SettledBy event w w' = SettlesEvent event w.db w'.db × (w'.now ≡ w.now)

  settle_event-Settles :
      (event : OutboxEventRecord) (outcome : PublishOutcome) (w w' : World) (a : Unit {0})
      → env.publish event ≡ outcome
      → since ≤ w.now
      → settle_event config event outcome w ≡ (ok a, w')
      → SettledBy event w w'
  unfolding ◌>>=◌ settle_event mark_published mark_publish_failed
  settle_event-Settles event confirmed w w' a o h e =
      subst (SettledBy event w) (ap (λ (x : Result (Unit {0}) × World). x.1) e)
        (publishes w.db_now o, refl)
  settle_event-Settles event (failed message) w w' a o h e =
      subst (SettledBy event w) (ap (λ (x : Result (Unit {0}) × World). x.1) e)
        (postpones message w.now w.db_now o h, refl)
  settle_event-Settles event (not_attempted message) w w' a o h e = absurd (ground (arith, e))

  publish_event-Settles :
      (event : OutboxEventRecord) (w w' : World) (a : Unit {0})
      → since ≤ w.now
      → publish_event config env event w ≡ (ok a, w')
      → SettlesEvent event w.db w'.db × (since ≤ w'.now)
  unfolding ◌>>=◌ publish_event await_publish
  publish_event-Settles event w w' a h e =
      let v : World = (await_publish env event w).1 in
      let (s, n) =
        settle_event-Settles event (env.publish event) v w' a refl (ground (arith, h)) e in
      (s, ground (arith, h, n))

  publish_all-Settles :
      (events : List OutboxEventRecord) (w w' : World) (a : Unit {0})
      → since ≤ w.now
      → publish_all config env events w ≡ (ok a, w')
      → Settles events w.db w'.db
  unfolding publish_all ◌>>=◌
  publish_all-Settles [] w w' a h e =
      subst (λ (x : Result (Unit {0}) × World). Settles [] w.db x.1.db) e nothing
  publish_all-Settles (x ∷ xs) w w' a h e =
      let (u, v, first, rest) =
        bind_inv (publish_event config env x) (λ _. publish_all config env xs) w w' a e in
      let (s, later) = publish_event-Settles x w v u h first in
      then s (publish_all-Settles xs v w' a later rest)

module _ (config : WorkerConfig) (env : Surroundings) where
  -- How a polling ends that began in the world `w`: it has no channel; its transaction has failed, and
  -- nothing but the work of the others is left; or it has committed, and on the database as the
  -- others left it every event of the claimed batch is settled. Only the last can end without an error.
  pub data Outcome (w : World) (x : Result (Unit {0}) × World) : Type 0 where
    unavailable : (e : Thrown) → env.channel ≡ err e → x ≡ (err e, w) → Outcome w x
    rolled_back :
        (a : Unit {0}) (e : Thrown)
        → env.channel ≡ ok a
        → x.0 ≡ err e
        → x.1.db ≡ run_others w.ticks w.db
        → Outcome w x
    committed :
        (a : Unit {0}) (batch : List OutboxEventRecord)
        → env.channel ≡ ok a
        → fetch_pending_batch env.id_le config.batch_size env.locked
            (interleave w).db_now
            (run_others w.ticks w.db)
          ≡ (ok batch, run_others w.ticks w.db)
        → Settles config env w.now batch (run_others w.ticks w.db) x.1.db
        → Outcome w x

  poll_batch-Settles :
      (w w' : World) (a : Unit {0})
      → poll_batch config env w ≡ (ok a, w')
      → (since : ℕ) → since ≤ w.now
      → (batch : List OutboxEventRecord) × (fetch_pending_batch env.id_le config.batch_size
            env.locked w.db_now w.db
          ≡ (ok batch, w.db))
        × Settles config env since batch w.db w'.db
  unfolding ◌>>=◌ poll_batch fetch_pending_batch
  poll_batch-Settles w w' a e since h = (_, refl, publish_all-Settles config env since _ w w' a h e)

  settle-Outcome :
      (w after : World) (f : Fault) (a b : Unit {0}) (batch : List OutboxEventRecord)
      → env.channel ≡ ok b
      → fetch_pending_batch env.id_le config.batch_size env.locked
          (interleave w).db_now
          (run_others w.ticks w.db)
        ≡ (ok batch, run_others w.ticks w.db)
      → Settles config env w.now batch (run_others w.ticks w.db) after.db
      → Outcome w (settle f (ok a) (interleave w) after)
  settle-Outcome w after healthy a b batch c fetched s = committed b batch c fetched s
  settle-Outcome w after (refused e) a b batch c fetched s = rolled_back b e c refl refl
  settle-Outcome w after (unacknowledged e) a b batch c fetched s = committed b batch c fetched s

  transaction-Outcome :
      (w : World) (b : Unit {0})
      → env.channel ≡ ok b
      → Outcome w (transaction (poll_batch config env) w)
  unfolding transaction
  transaction-Outcome w b c = go (poll_batch config env (interleave w)) refl
    where
      go :
          (x : Result (Unit {0}) × World)
          → poll_batch config env (interleave w) ≡ x
          → Outcome w (
              let y : Result (Unit {0}) × World = elim x.0 [
                | ok a ↦ settle (head_fault w.ticks) (ok a) (interleave w) x.1
                | err e ↦ (err e, record x.1 { db = (interleave w).db })
              ] in
              y)
      go (ok a, after) e =
          let (batch, fetched, s) =
            poll_batch-Settles (interleave w) after a e w.now (ground arith) in
          settle-Outcome w after (head_fault w.ticks) a b batch c fetched s
      go (err t, after) e = rolled_back b t c refl refl

  poll_once-Outcome : (w : World) → Outcome w (poll_once config env w)
  unfolding poll_once ◌>>=◌
  poll_once-Outcome w = go env.channel refl
    where
      go :
          (c : Result (Unit {0}))
          → env.channel ≡ c
          → Outcome w ((lift c >>= λ _. transaction (poll_batch config env)) w)
      go (ok a) e = transaction-Outcome w a e
      go (err t) e = unavailable t e refl

  -- How a polling ends, and what the system sees of it.
  pub record IsPolled (w : World) : Type 0 where
    pub outcome : Outcome w (poll_once config env w)
    pub steps : Reach w.db (poll_once config env w).1.db

  -- In a friendly environment a polling without a channel changes nothing; any other leaves the
  -- database as the other requests made it, and throws, or commits on that database the settlement
  -- of every event of the batch that it claims, in its order: the row is marked as published for
  -- one that the broker has confirmed, and has one more attempt, with its error and the delay
  -- counted from a time not before the polling's begin, for one whose publication has failed. No
  -- batch with an event that was not attempted is committed, and all that is left is a sequence of
  -- the system's steps.
  pub poll_once-IsPolled : (w : World) → Friendly w.ticks → IsPolled w
  poll_once-IsPolled w h = record {
    outcome = poll_once-Outcome w;
    steps = poll_once-Reach config env w h;
  }
