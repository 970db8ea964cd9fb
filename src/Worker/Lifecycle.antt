-- ===== src/Worker/Lifecycle.antt =====
-- The lifecycle of services/payment-service/src/workers/outbox-publisher-worker.ts: `start`,
-- `stop` and `scheduleNext`, with the timer and the polling iteration as events.
use payment_orchestration_pl.Prelude.{
  ℕ, ◌+◌, ◌≡◌, refl, ◌∙◌, Bool, true, false, ◌⊎◌, inl, List, [], ◌∷◌, arith, if◌then◌else◌, Option,
  none, some,
}
use payment_orchestration_pl.Errors.{Thrown, other_error}

pub data WorkerLifecycleState : Type 0 where
  idle running stopping stopped : WorkerLifecycleState

-- `timer` and `in_flight` say whether the fields are set; so does `stop_promise`. `polls` counts
-- the iterations that were begun.
pub record Worker : Type 0 where
  pub lifecycle_state : WorkerLifecycleState
  pub timer : Bool
  pub in_flight : Bool
  pub stop_promise : Bool
  pub polls : ℕ

pub data Event : Type 0 where
  start : Event
  stop : Event
  -- the timer's callback runs
  fire : Event
  -- the iteration's promise settles, and its `finally` runs
  finish : Event
  -- the stop promise settles, and its `finally` runs
  settle_stop : Event

unfoldable pub new_worker : Worker
new_worker = record {
  lifecycle_state = idle;
  timer = false;
  in_flight = false;
  stop_promise = false;
  polls = 0;
}

abbrev pub is_running : WorkerLifecycleState → Bool
is_running running = true
is_running _ = false

unfoldable pub schedule_next : Worker → Worker
schedule_next w = if is_running w.lifecycle_state then record w { timer = true } else w

abbrev pub cannot_restart : Thrown
cannot_restart = other_error "Outbox publisher worker cannot restart after stop"

-- `start` by the state that it finds, with what it throws.
unfoldable pub start_from : WorkerLifecycleState → Worker → Worker × Option Thrown
unfolding schedule_next
start_from running w = (w, none)
start_from idle w =
    (schedule_next (record w { lifecycle_state = running; stop_promise = false }), none)
start_from _ w = (w, some cannot_restart)

unfoldable pub stop_worker : Worker → Worker
stop_worker w =
    if w.stop_promise
    then w
    else record w { lifecycle_state = stopping; timer = false; stop_promise = true }

-- A callback runs only where it is registered.
unfoldable pub step : Worker → Event → Worker
unfolding schedule_next start_from stop_worker
step w start = (start_from w.lifecycle_state w).0
step w stop = stop_worker w
step w fire =
    if w.timer then record w { timer = false; in_flight = true; polls = w.polls + 1 } else w
step w finish = if w.in_flight then schedule_next (record w { in_flight = false }) else w
step w settle_stop =
    if w.stop_promise then if w.in_flight then w else record w { lifecycle_state = stopped } else w

unfoldable pub run : Worker → List Event → Worker
run w [] = w
run w (e ∷ es) = run (step w e) es

-- The timer and an iteration exclude each other; both belong to a live worker.
pub record IsValid (w : Worker) : Type 0 where
  pub exclusive : w.timer ≡ true → w.in_flight ≡ false
  pub armed : w.timer ≡ true → w.lifecycle_state ≡ running
  pub promised :
      w.stop_promise ≡ true → (w.lifecycle_state ≡ stopping) ⊎ (w.lifecycle_state ≡ stopped)
  pub unpromised :
      w.stop_promise ≡ false → (w.lifecycle_state ≡ idle) ⊎ (w.lifecycle_state ≡ running)
  pub begun : w.lifecycle_state ≡ idle → (w.timer ≡ false) × (w.in_flight ≡ false)
  pub drained : w.lifecycle_state ≡ stopped → w.in_flight ≡ false
  pub waiting : w.lifecycle_state ≡ running → (w.timer ≡ true) ⊎ (w.in_flight ≡ true)

new_worker-IsValid : IsValid new_worker
unfolding new_worker
new_worker-IsValid = record {
  exclusive = λ h. refl;
  armed = λ h. absurd (ground arith);
  promised = λ h. absurd (ground arith);
  unpromised = λ h. inl refl;
  begun = λ h. (refl, refl);
  drained = λ h. refl;
  waiting = λ h. absurd (ground arith);
}

step-IsValid : (w : Worker) (e : Event) → IsValid w → IsValid (step w e)
unfolding step
step-IsValid w start v = ground arith
step-IsValid w stop v = ground arith
step-IsValid w fire v = ground arith
step-IsValid w finish v = ground arith
step-IsValid w settle_stop v = ground arith

run-IsValid_from : (w : Worker) (es : List Event) → IsValid w → IsValid (run w es)
unfolding run
run-IsValid_from w [] v = v
run-IsValid_from w (e ∷ es) v = run-IsValid_from (step w e) es (step-IsValid w e v)

-- In every run of a new worker the timer and an iteration exclude each other, a running worker has
-- one of the two, and a stopped worker has neither.
pub run-IsValid : (es : List Event) → IsValid (run new_worker es)
run-IsValid es = run-IsValid_from new_worker es new_worker-IsValid

stopped_step :
    (w : Worker) (e : Event)
    → IsValid w
    → w.stop_promise ≡ true
    → ((step w e).stop_promise ≡ true) × ((step w e).polls ≡ w.polls)
unfolding step
stopped_step w start v h = ground arith
stopped_step w stop v h = ground arith
stopped_step w fire v h = ground arith
stopped_step w finish v h = ground arith
stopped_step w settle_stop v h = ground arith

stop_promised : (w : Worker) → ((step w stop).stop_promise ≡ true) × ((step w stop).polls ≡ w.polls)
unfolding step
stop_promised w = ground arith

run_stopped :
    (w : Worker) (es : List Event) → IsValid w → w.stop_promise ≡ true → (run w es).polls ≡ w.polls
unfolding run
run_stopped w [] v h = refl
run_stopped w (e ∷ es) v h =
    let (promised, same) = stopped_step w e v h in
    run_stopped (step w e) es (step-IsValid w e v) promised ∙ same

-- After `stop` of a worker in a valid state no further iteration begins, whatever happens, a
-- second `start` included.
pub stop_ends_polling :
    (w : Worker) (es : List Event) → IsValid w → (run (step w stop) es).polls ≡ w.polls
stop_ends_polling w es v =
    let (promised, same) = stop_promised w in
    run_stopped (step w stop) es (step-IsValid w stop v) promised ∙ same
