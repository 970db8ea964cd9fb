-- ===== src/Worker/Attempts.antt =====
-- How often an event is tried: `markPublishFailed` of
-- services/payment-service/src/data-access/outbox, over and over.
use mathlib.Core.Path.{subst}
use payment_orchestration_pl.Prelude.{
  ℕ, ◌+◌, min, ltb, String, ◌≡◌, refl, sym, ap, ◌∙◌, true, some, List, [], ◌∷◌, arith, All, length,
  map_option, if◌then◌else◌, ◌==◌, eq_iff,
}
use payment_orchestration_pl.Tables.Laws.{first_where-update_where, first_where_sound}
use payment_orchestration_pl.DataAccess.Rows.{OutboxEventRecord, Db}
use payment_orchestration_pl.DataAccess.Outbox.{
  MarkPublishFailedInput, has_event_id, is_pending, is_pending_event, as_publish_failed,
  mark_publish_failed,
}
use payment_orchestration_pl.Worker.Polling.{find_event}

-- Failures, one after the other, each at its time.
unfoldable pub fail_all : List (MarkPublishFailedInput × ℕ) → Db → Db
fail_all [] db = db
fail_all ((input, now) ∷ fs) db = fail_all fs (mark_publish_failed input now db).1

-- They concern the event, and have the worker's bound.
abbrev pub AreOf : String → ℕ → List (MarkPublishFailedInput × ℕ) → Type 0
AreOf id max = All (λ f. (f.0.id ≡ id) × (f.0.max_attempts ≡ max))

-- The event has been tried `n` times, at most `max`, and is PENDING until then.
pub record IsTried (id : String) (max n : ℕ) (db : Db) : Type 0 where
  pub event : OutboxEventRecord
  pub found : find_event id db ≡ some event
  pub attempts : event.attempts ≡ min n max
  pub waiting : is_pending event.status ≡ ltb n max

fail-IsTried :
    (id : String) (max n : ℕ) (db : Db) (input : MarkPublishFailedInput) (now : ℕ)
    → input.id ≡ id
    → input.max_attempts ≡ max
    → IsTried id max n db
    → IsTried id max (n + 1) (mark_publish_failed input now db).1
unfolding mark_publish_failed
fail-IsTried id max n db input now same bound t =
    let p = is_pending_event input.id in
    let f = as_publish_failed input in
    let named : t.event.id ≡ id =
      (eq_iff t.event.id id).0
        (first_where_sound (has_event_id id) db.outbox_events t.event t.found) in
    let hit : (t.event.id == input.id) ≡ true = (eq_iff t.event.id input.id).1 (named ∙ sym same) in
    record {
      event = if p t.event then f t.event else t.event;
      found =
          first_where-update_where (has_event_id id) p f db.outbox_events (λ e. refl)
          ∙ ap (map_option (λ e. if p e then f e else e)) t.found;
      attempts = ground (arith, hit, bound, t.attempts, t.waiting);
      waiting = ground (arith, hit, bound, t.attempts, t.waiting);
    }

-- From a state in which an event's attempts are the number of its failures, but at most the bound,
-- and it is PENDING exactly while the failures are fewer than the bound, any further failures with
-- this bound lead to such a state.
pub fail_all-IsTried :
    (id : String) (max n : ℕ) (fs : List (MarkPublishFailedInput × ℕ)) (db : Db)
    → AreOf id max fs
    → IsTried id max n db
    → IsTried id max (n + length fs) (fail_all fs db)
unfolding fail_all
fail_all-IsTried id max n [] db h t = subst (λ k. IsTried id max k db) (omega arith) t
fail_all-IsTried id max n ((input, now) ∷ fs) db h t =
    let later =
      fail_all-IsTried id max (n + 1) fs (mark_publish_failed input now db).1 h.1
        (fail-IsTried id max n db input now h.0.0 h.0.1 t) in
    subst (λ k. IsTried id max k (fail_all fs (mark_publish_failed input now db).1)) (omega arith)
      later
