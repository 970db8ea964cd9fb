-- ===== src/Worker/Polling.antt =====
-- One polling of services/payment-service/src/workers/outbox-publisher-worker.ts: what it leaves of
-- the outbox.
use payment_orchestration_pl.Prelude.{
  ◌+◌, String, ◌≡◌, refl, sym, ap, ◌∙◌, ◌⊎◌, inl, inr, Bool, Option, none, some, List, [], ◌∷◌,
  arith, map_option, if◌then◌else◌, ◌==◌, eq_iff, Bool-cases,
}
use payment_orchestration_pl.Errors.{Result, ok, err}
use payment_orchestration_pl.Tables.{first_where, update_where}
use payment_orchestration_pl.Tables.Laws.{first_where-update_where, first_where_sound}
use payment_orchestration_pl.DataAccess.Rows.{OutboxEventRecord, published, Db}
use payment_orchestration_pl.DataAccess.Outbox.{
  MarkPublishFailedInput, has_event_id, is_pending_event, as_published, as_publish_failed,
  mark_published, mark_publish_failed, fetch_pending_batch,
}
use payment_orchestration_pl.Exec.{
  World, ◌>>=◌, query, transaction, interleave, run_others, Fault, healthy, refused, unacknowledged,
  head_fault, head_elapsed, later_ticks, settle,
}
use payment_orchestration_pl.Exec.Keeps.{Keeps, keeps_rules}
use payment_orchestration_pl.Worker.{
  WorkerConfig, PublishOutcome, confirmed, failed, not_attempted, Surroundings, await_publish,
  settle_event, publish_event, publish_all, poll_batch,
}

-- The row that an event's id reads.
abbrev pub find_event : String → Db → Option OutboxEventRecord
find_event id db = first_where (has_event_id id) db.outbox_events

-- The broker has confirmed the publication of an event with this id.
pub record Confirmed (env : Surroundings) (id : String) : Type 0 where
  pub event : OutboxEventRecord
  pub same_id : event.id ≡ id
  pub answer : env.publish event ≡ confirmed

-- A row that says PUBLISHED either said so before, or was confirmed.
abbrev pub IsJustified : Surroundings → Db → Db → Type 0
IsJustified env before db =
    (id : String) (e : OutboxEventRecord)
    → find_event id db ≡ some e
    → e.status ≡ published
    → ((e₀ : OutboxEventRecord) × (find_event id before ≡ some e₀) × (e₀.status ≡ published))
      ⊎ Confirmed env id

find-update :
    (id : String) (p : OutboxEventRecord → Bool) (f : OutboxEventRecord → OutboxEventRecord)
    (es : List OutboxEventRecord)
    → ((e : OutboxEventRecord) → (f e).id ≡ e.id)
    → first_where (has_event_id id) (update_where p f es)
      ≡ map_option (λ e. if p e then f e else e) (first_where (has_event_id id) es)
find-update id p f es h =
    first_where-update_where (has_event_id id) p f es (λ e. ap (λ i. i == id) (h e))

pub found_before :
    (id : String) (p : OutboxEventRecord → Bool) (f : OutboxEventRecord → OutboxEventRecord)
    (es : List OutboxEventRecord) (e' : OutboxEventRecord)
    → ((e : OutboxEventRecord) → (f e).id ≡ e.id)
    → first_where (has_event_id id) (update_where p f es) ≡ some e'
    → (e : OutboxEventRecord) × (first_where (has_event_id id) es ≡ some e)
      × (e' ≡ (if p e then f e else e))
      × (e.id ≡ id)
found_before id p f es e' h k =
    go (first_where (has_event_id id) es) refl (sym (find-update id p f es h) ∙ k)
  where
    go :
        (o : Option OutboxEventRecord)
        → first_where (has_event_id id) es ≡ o
        → map_option (λ e. if p e then f e else e) o ≡ some e'
        → (e : OutboxEventRecord) × (first_where (has_event_id id) es ≡ some e)
          × (e' ≡ (if p e then f e else e))
          × (e.id ≡ id)
    go none q r = absurd (cc)
    go (some e) q r =
        (e, q, ground (arith, r), (eq_iff e.id id).0 (first_where_sound (has_event_id id) es e q))

module _ (env : Surroundings) (before : Db) where
  abbrev Justified : World → Type 0
  Justified w = IsJustified env before w.db

  publish-Keeps : (id : String) → Confirmed env id → Keeps Justified (query (mark_published id))
  unfolding ◌>>=◌ mark_published
  publish-Keeps id c = record {
    keeps = λ w h i e' found done.
        let (e, f, shape, is) =
          found_before i (is_pending_event id) (as_published w.db_now) w.db.outbox_events e'
            (λ x. refl) found in
        elim (Bool-cases (e.id == id)) [
          | inl same ↦ inr (record {
            event = c.event;
            same_id = c.same_id ∙ sym ((eq_iff e.id id).0 same) ∙ is;
            answer = c.answer;
          })
          | inr other ↦ h i e f (ground (arith, shape, other, done))
        ];
  }

  fail-Keeps :
      (input : MarkPublishFailedInput) → Keeps Justified (query (mark_publish_failed input))
  unfolding ◌>>=◌ mark_publish_failed
  fail-Keeps input = record {
    keeps = λ w h i e' found done.
        let (e, f, shape, is) =
          found_before i (is_pending_event input.id) (as_publish_failed input) w.db.outbox_events e'
            (λ x. refl) found in
        h i e f (ground (arith, shape, done));
  }

module _ (config : WorkerConfig) (env : Surroundings) (before : Db) where
  settle-Keeps :
      (event : OutboxEventRecord) (outcome : PublishOutcome)
      → env.publish event ≡ outcome
      → Keeps (Justified env before) (settle_event config event outcome)
  unfolding settle_event
  settle-Keeps event confirmed e =
      let c : Confirmed env event.id = record { event = event; same_id = refl; answer = e } in
      search (keeps_rules, publish-Keeps env before event.id c)
  settle-Keeps event (failed message) e = search (keeps_rules, fail-Keeps env before) depth 8
  settle-Keeps event (not_attempted message) e = search keeps_rules

  publish_event-Keeps :
      (event : OutboxEventRecord) → Keeps (Justified env before) (publish_event config env event)
  unfolding ◌>>=◌ publish_event await_publish
  publish_event-Keeps event = record {
    keeps = λ w h.
        (settle-Keeps event (env.publish event) refl).keeps
          (record w { now = w.now + head_elapsed w.ticks; ticks = later_ticks w.ticks }) h;
  }

  publish_all-Keeps :
      (events : List OutboxEventRecord)
      → Keeps (Justified env before) (publish_all config env events)
  unfolding publish_all
  publish_all-Keeps [] = search keeps_rules
  publish_all-Keeps (e ∷ es) = search (keeps_rules, publish_event-Keeps e, publish_all-Keeps es)

  fetch-Keeps :
      Keeps
        (Justified env before)
        (query (fetch_pending_batch env.id_le config.batch_size env.locked))
  unfolding ◌>>=◌ fetch_pending_batch
  fetch-Keeps = record { keeps = λ w h. h }

  poll_batch-Keeps : Keeps (Justified env before) (poll_batch config env)
  unfolding poll_batch
  poll_batch-Keeps = search (keeps_rules, fetch-Keeps, publish_all-Keeps)

settle-Justified :
    {A : Type 0} (env : Surroundings) (db₀ : Db) (f : Fault) (a : A) (before after : World)
    → IsJustified env db₀ before.db
    → IsJustified env db₀ after.db
    → IsJustified env db₀ (settle f (ok a) before after).1.db
settle-Justified env db₀ healthy a before after h k = k
settle-Justified env db₀ (refused e) a before after h k = h
settle-Justified env db₀ (unacknowledged e) a before after h k = k

-- However the polling's transaction ends, a row that is PUBLISHED after it was so before it, or
-- has an id for which the broker has confirmed a publication.
pub poll_batch-IsJustified :
    (config : WorkerConfig) (env : Surroundings) (w : World)
    → IsJustified env (run_others w.ticks w.db) (transaction (poll_batch config env) w).1.db
unfolding transaction
poll_batch-IsJustified config env w =
    go (poll_batch config env (interleave w))
      ((poll_batch-Keeps config env (run_others w.ticks w.db)).keeps (interleave w) same)
  where
    same : IsJustified env (run_others w.ticks w.db) (run_others w.ticks w.db)
    same id e found done = inl (e, found, done)

    go :
        (x : Result (Unit {0}) × World)
        → IsJustified env (run_others w.ticks w.db) x.1.db
        → IsJustified env
            (run_others w.ticks w.db)
            (let y : Result (Unit {0}) × World = elim x.0 [
              | ok a ↦ settle (head_fault w.ticks) (ok a) (interleave w) x.1
              | err e ↦ (err e, record x.1 { db = (interleave w).db })
            ] in
              y).1.db
    go (ok a, after) h =
        settle-Justified env (run_others w.ticks w.db) (head_fault w.ticks) a (interleave w) after
          same h
    go (err t, after) h = same
