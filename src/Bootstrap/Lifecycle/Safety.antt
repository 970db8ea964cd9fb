-- ===== src/Bootstrap/Lifecycle/Safety.antt =====
-- What every life of the payment service keeps,
-- services/payment-service/src/bootstrap/payment-service-bootstrap.ts.
use payment_orchestration_pl.Prelude.{◌≡◌, Bool, true, false, Option, none, some, arith, is_some}
use payment_orchestration_pl.Errors.{Thrown}
use payment_orchestration_pl.Bootstrap.{
  BootstrapLifecycleState, stopped, listen, close_http, start_worker, stop_worker, new_bootstrap,
  force_close_http_connections, Resources, close_rabbit_mq_once, close_knex,
  force_shutdown_after_deadline,
}
use payment_orchestration_pl.Bootstrap.Shutdown.{
  IsOnce, Releases, is_rabbit_close, is_knex_destroy, count_calls-log, new_bootstrap-IsOnce,
  forced-IsOnce, rabbit-IsOnce, knex-IsOnce, force_shutdown-Releases,
}
use payment_orchestration_pl.Bootstrap.Lifecycle.{
  StartStage, StopStage, closing_http, forcing_http, stopping_worker, closing_knex, ended,
  Settlement, Service, new_service, is_shut_down, bootstrap, resume_start, begin_stop, shutdown,
  handle_signal, resume_stop, is_ended, Step, bootstraps, start_settles, shuts_down, signals,
  stop_settles, deadline_passes, Reach, start, next,
}

-- From which stage on RabbitMQ, and Knex, have been asked to close.
abbrev pub past_rabbit_mq : Option StopStage → Bool
past_rabbit_mq none = false
past_rabbit_mq (some closing_http) = false
past_rabbit_mq (some forcing_http) = false
past_rabbit_mq (some stopping_worker) = false
past_rabbit_mq (some _) = true

abbrev pub past_knex : Option StopStage → Bool
past_knex (some (closing_knex e)) = true
past_knex (some (ended e)) = true
past_knex _ = false

-- The promises, the state and the stages agree.
pub record InPhase (s : Service) : Type 0 where
  pub bootstrapped : is_some s.start_stage ≡ s.state.bootstrap_promise
  pub shut_down : is_shut_down s.state.lifecycle_state ≡ s.state.shutdown_promise
  pub stopping : is_some s.stop_stage ≡ s.state.shutdown_promise
  pub rabbit_mq : past_rabbit_mq s.stop_stage ≡ true → s.state.rabbit_mq_close_promise ≡ true
  pub knex : past_knex s.stop_stage ≡ true → s.state.knex_destroy_promise ≡ true
  pub stopped :
      is_ended s.stop_stage ≡ true → s.state.lifecycle_state ≡ BootstrapLifecycleState.stopped

module _ (r : Resources) where
  pub Step-InPhase : {s t : Service} → Step r s t → InPhase s → InPhase t
  unfolding bootstrap resume_start shutdown handle_signal begin_stop resume_stop
      close_rabbit_mq_once close_knex force_close_http_connections force_shutdown_after_deadline
  Step-InPhase {s} bootstraps v = ground arith
  Step-InPhase {s} (start_settles stage error e) v = ground arith
  Step-InPhase {s} shuts_down v = ground arith
  Step-InPhase {s} signals v = ground arith
  Step-InPhase {s} (stop_settles stage settlement e) v = ground arith
  Step-InPhase {s} (deadline_passes e f) v = ground arith

  bootstrap-IsOnce : (s : Service) → IsOnce s.state → IsOnce (bootstrap s).1.state
  unfolding bootstrap
  bootstrap-IsOnce s v = ground (
    arith,
    v.rabbit_mq,
    v.knex,
    count_calls-log is_rabbit_close s.state.calls listen,
    count_calls-log is_knex_destroy s.state.calls listen,
  )

  resume_start-IsOnce :
      (stage : StartStage) (e : Option Thrown) (s : Service)
      → IsOnce s.state
      → IsOnce (resume_start stage e s).state
  unfolding resume_start
  resume_start-IsOnce stage e s v = ground (
    arith,
    v.rabbit_mq,
    v.knex,
    count_calls-log is_rabbit_close s.state.calls start_worker,
    count_calls-log is_knex_destroy s.state.calls start_worker,
  )

  shutdown-IsOnce : (s : Service) → IsOnce s.state → IsOnce (shutdown r s).state
  unfolding shutdown begin_stop
  shutdown-IsOnce s v = ground (
    arith,
    v.rabbit_mq,
    v.knex,
    count_calls-log is_rabbit_close s.state.calls close_http,
    count_calls-log is_knex_destroy s.state.calls close_http,
    count_calls-log is_rabbit_close s.state.calls stop_worker,
    count_calls-log is_knex_destroy s.state.calls stop_worker,
  )

  resume_stop-IsOnce :
      (stage : StopStage) (x : Settlement) (s : Service)
      → IsOnce s.state
      → IsOnce (resume_stop r stage x s).state
  unfolding resume_stop
  resume_stop-IsOnce stage x s v = ground (
    arith,
    v.rabbit_mq,
    v.knex,
    rabbit-IsOnce r s.state v,
    knex-IsOnce r s.state v,
    forced-IsOnce s.state v,
    count_calls-log is_rabbit_close s.state.calls stop_worker,
    count_calls-log is_knex_destroy s.state.calls stop_worker,
  )

  pub Step-IsOnce : {s t : Service} → Step r s t → IsOnce s.state → IsOnce t.state
  unfolding handle_signal
  Step-IsOnce {s} bootstraps v = bootstrap-IsOnce s v
  Step-IsOnce {s} (start_settles stage error e) v = resume_start-IsOnce stage error s v
  Step-IsOnce {s} shuts_down v = shutdown-IsOnce s v
  Step-IsOnce {s} signals v = shutdown-IsOnce (record s { signalled = true }) v
  Step-IsOnce {s} (stop_settles stage settlement e) v = resume_stop-IsOnce stage settlement s v
  Step-IsOnce {s} (deadline_passes e f) v = (force_shutdown-Releases r s.state v).once

  new_service-InPhase : InPhase new_service
  unfolding new_service new_bootstrap
  new_service-InPhase = ground arith

  pub Reach-InPhase : {s : Service} → Reach r s → InPhase s
  Reach-InPhase start = new_service-InPhase
  Reach-InPhase (next w st) = Step-InPhase st (Reach-InPhase w)

  pub Reach-IsOnce : {s : Service} → Reach r s → IsOnce s.state
  unfolding new_service
  Reach-IsOnce start = new_bootstrap-IsOnce
  Reach-IsOnce (next w st) = Step-IsOnce st (Reach-IsOnce w)

  -- In every life of the payment service, with any calls of `bootstrap`, `shutdown` and signals,
  -- and forced shutdowns at any time before the end, RabbitMQ and Knex have each been asked to
  -- close exactly once when the shutdown has ended, and the state is stopped.
  pub Reach-Releases :
      {s : Service} (e : Option Thrown)
      → Reach r s
      → s.stop_stage ≡ some (ended e)
      → Releases (e, s.state) × (s.state.lifecycle_state ≡ stopped)
  Reach-Releases {s} e w h =
      let v : InPhase s = Reach-InPhase w in
      (
        record {
          once = Reach-IsOnce w;
          rabbit_mq_closed = ground arith;
          knex_destroyed = ground arith;
        },
        ground arith,
      )
