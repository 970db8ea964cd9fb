-- ===== src/Bootstrap/Lifecycle.antt =====
-- The life of the payment service, services/payment-service/src/bootstrap/payment-service-bootstrap.ts: the
-- starting, the shutdown and the forced shutdown, cut at their awaits, in any order.
pub mod Safety
pub mod Starts
pub mod Agreement
pub mod Ending
use payment_orchestration_pl.Prelude.{
  ℕ, ◌≡◌, ◌≢◌, Bool, true, false, Option, none, some, List, [], ◌∷◌, if◌then◌else◌,
}
use payment_orchestration_pl.Errors.{Thrown, other_error}
use payment_orchestration_pl.Bootstrap.{
  BootstrapLifecycleState, idle, starting, running, stopping, stopped, Call, listen, close_http,
  close_all_connections, start_worker, stop_worker, close_rabbit_mq, destroy_knex, force_exit,
  Bootstrap, new_bootstrap, log, first_error, force_close_http_connections, Resources,
  close_rabbit_mq_once, close_knex, force_shutdown_after_deadline,
}

-- What `start` awaits, or what it came to.
pub data StartStage : Type 0 where
  listening : StartStage
  starting_worker : StartStage
  started : (error : Option Thrown) → StartStage

-- What `stop` awaits, with its first error, or what it came to.
pub data StopStage : Type 0 where
  -- the close of HTTP within its grace period, and without
  closing_http : StopStage
  forcing_http : StopStage
  -- the stop of the worker within its grace period; where it is late, the close of RabbitMQ, and
  -- then the worker
  stopping_worker : StopStage
  closing_rabbit_mq_early : StopStage
  awaiting_worker : StopStage
  closing_rabbit_mq : (first_error : Option Thrown) → StopStage
  closing_knex : (first_error : Option Thrown) → StopStage
  ended : (error : Option Thrown) → StopStage

-- An await ends, with an error or none, or the grace period of a race does.
pub data Settlement : Type 0 where
  settles : (error : Option Thrown) → Settlement
  grace_ends : Settlement

pub record Service : Type 0 where
  pub state : Bootstrap
  pub start_stage : Option StartStage
  pub stop_stage : Option StopStage
  pub signalled : Bool

unfoldable pub new_service : Service
unfolding new_bootstrap
new_service = record {
  state = new_bootstrap;
  start_stage = none;
  stop_stage = none;
  signalled = false;
}

-- `start`, up to its first await: `listen` returns a server, and tells of an error by an event.
abbrev pub begin_start : Service → Service
begin_start s = record s {
  state =
      log listen (record s.state {
        lifecycle_state = starting;
        bootstrap_promise = true;
        http_server = true;
      });
  start_stage = some listening;
}

abbrev pub cannot_bootstrap : Thrown
cannot_bootstrap = other_error "Payment service cannot bootstrap after shutdown"

abbrev pub interrupted : Thrown
interrupted = other_error "Payment service shutdown interrupted bootstrap"

abbrev pub is_shut_down : BootstrapLifecycleState → Bool
is_shut_down stopping = true
is_shut_down stopped = true
is_shut_down _ = false

abbrev pub is_starting : BootstrapLifecycleState → Bool
is_starting starting = true
is_starting _ = false

unfoldable pub bootstrap : Service → Option Thrown × Service
bootstrap s =
    if is_shut_down s.state.lifecycle_state
    then (some cannot_bootstrap, s)
    else if s.state.bootstrap_promise
    then (none, s)
    else (none, begin_start s)

-- `start`, and what follows it in `bootstrap`, when its await ends.
unfoldable pub resume_start : StartStage → Option Thrown → Service → Service
resume_start listening (some e) s = record s { start_stage = some (started (some e)) }
resume_start listening none s =
    if is_starting s.state.lifecycle_state
    then record s { state = log start_worker s.state; start_stage = some starting_worker }
    else record s { start_stage = some (started (some interrupted)) }
resume_start starting_worker (some e) s = record s { start_stage = some (started (some e)) }
resume_start starting_worker none s = record s {
  state = record s.state {
    lifecycle_state =
        if is_starting s.state.lifecycle_state then running else s.state.lifecycle_state;
  };
  start_stage = some (started none);
}
resume_start (started e) _ s = s

abbrev pub is_ended : Option StopStage → Bool
is_ended (some (ended e)) = true
is_ended _ = false

-- The parts of `stop` between two awaits. The `Resources` of a closing tell only how its promise
-- settles, which is awaited here.
module _ (r : Resources) where
  abbrev pub begin_worker_stop : Service → Service
  begin_worker_stop s = record s {
    state = log stop_worker s.state;
    stop_stage = some stopping_worker;
  }

  abbrev pub begin_rabbit_mq : Option Thrown → Service → Service
  begin_rabbit_mq e s = record s {
    state = (close_rabbit_mq_once r s.state).1;
    stop_stage = some (closing_rabbit_mq e);
  }

  abbrev pub begin_knex : Option Thrown → Service → Service
  begin_knex e s = record s { state = (close_knex r s.state).1; stop_stage = some (closing_knex e) }

  -- Behind `closeHttpServer`.
  abbrev pub after_http : Option Thrown → Service → Service
  after_http none s =
      begin_worker_stop (record s { state = record s.state { http_server = false } })
  after_http (some e) s = begin_rabbit_mq (some e) s

  -- The await of a `closeHttpServer` that has nothing to close, one microtask, is left out.
  unfoldable pub begin_stop : Service → Service
  begin_stop s =
      if s.state.http_server
      then record s { state = log close_http s.state; stop_stage = some closing_http }
      else begin_worker_stop s

  unfoldable pub shutdown : Service → Service
  unfolding begin_stop
  shutdown s =
      if s.state.shutdown_promise
      then s
      else begin_stop (record s {
        state = record s.state { lifecycle_state = stopping; shutdown_promise = true };
      })

  -- `handleSignal`, up to its await.
  unfoldable pub handle_signal : Service → Service
  unfolding shutdown
  handle_signal s = shutdown (record s { signalled = true })

  unfoldable pub resume_stop : StopStage → Settlement → Service → Service
  unfolding force_close_http_connections close_rabbit_mq_once close_knex
  resume_stop closing_http (settles e) s = after_http e s
  resume_stop closing_http grace_ends s = record s {
    state = force_close_http_connections s.state;
    stop_stage = some forcing_http;
  }
  resume_stop forcing_http (settles e) s = after_http e s
  resume_stop stopping_worker (settles e) s = begin_rabbit_mq e s
  resume_stop stopping_worker grace_ends s = record s {
    state = (close_rabbit_mq_once r s.state).1;
    stop_stage = some closing_rabbit_mq_early;
  }
  resume_stop closing_rabbit_mq_early (settles none) s = record s {
    stop_stage = some awaiting_worker;
  }
  resume_stop closing_rabbit_mq_early (settles (some e)) s = begin_rabbit_mq (some e) s
  resume_stop awaiting_worker (settles e) s = begin_rabbit_mq e s
  resume_stop (closing_rabbit_mq first) (settles e) s = begin_knex (first_error first e) s
  resume_stop (closing_knex first) (settles e) s = record s {
    state = record s.state { lifecycle_state = stopped };
    stop_stage = some (ended (first_error first e));
  }
  resume_stop _ _ s = s

  -- The timer of a signal is cleared when the shutdown that it awaits has ended.
  pub data Step (s : Service) : Service → Type 0 where
    bootstraps : Step s (bootstrap s).1
    start_settles :
        (stage : StartStage) (error : Option Thrown)
        → s.start_stage ≡ some stage
        → Step s (resume_start stage error s)
    shuts_down : Step s (shutdown s)
    signals : Step s (handle_signal s)
    stop_settles :
        (stage : StopStage) (settlement : Settlement)
        → s.stop_stage ≡ some stage
        → Step s (resume_stop stage settlement s)
    deadline_passes :
        s.signalled ≡ true
        → is_ended s.stop_stage ≡ false
        → Step s (record s { state = force_shutdown_after_deadline r s.state })

  pub data Reach : Service → Type 0 where
    start : Reach new_service
    next : {s t : Service} → Reach s → Step s t → Reach t
