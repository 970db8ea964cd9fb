-- ===== src/Bootstrap/Tests.antt =====
-- Lives of concrete services.
use payment_orchestration_pl.Prelude.{
  ◌≡◌, refl, Bool, true, false, Option, none, some, List, [], ◌∷◌, arith,
}
use payment_orchestration_pl.Errors.{Thrown, other_error}
use payment_orchestration_pl.Bootstrap.{Resources, stopped}
use payment_orchestration_pl.Bootstrap.Shutdown.{Releases}
use payment_orchestration_pl.Bootstrap.Lifecycle.{
  Service, new_service, bootstrap, cannot_bootstrap, resume_start, shutdown, begin_stop,
  resume_stop, listening, StopStage, closing_http, closing_rabbit_mq, closing_knex, ended,
  Settlement, settles, is_ended, Reach, start, next, bootstraps, start_settles, shuts_down,
  stop_settles,
}
use payment_orchestration_pl.Bootstrap.Lifecycle.Safety.{Reach-Releases}
use payment_orchestration_pl.Bootstrap.Lifecycle.Starts.{
  worker_starts, Later, now, later, shut_down-starts,
}
use payment_orchestration_pl.Bootstrap.Lifecycle.Ending.{settle_all, shutdown-ends}

-- Every resource fails, and the first two are late.
abbrev failing : Resources
failing = record {
  http_close = record { within_grace = false; error = some (other_error "http") };
  worker_stop = record { within_grace = false; error = some (other_error "worker") };
  rabbit_mq_close = some (other_error "rabbit");
  knex_destroy = some (other_error "knex");
}

-- A service that starts, and is shut down before HTTP listens.
abbrev starting_service : Service
starting_service = (bootstrap new_service).1

abbrev interrupted_service : Service
interrupted_service = shutdown failing starting_service

abbrev late_service : Service
late_service = resume_start listening none interrupted_service

interrupted-Reach : Reach failing interrupted_service
interrupted-Reach = next (next start bootstraps) shuts_down

interrupted-IsShutDown : interrupted_service.state.shutdown_promise ≡ true
unfolding bootstrap shutdown begin_stop new_service
interrupted-IsShutDown = refl

listens_late : Later failing interrupted_service late_service
unfolding bootstrap shutdown begin_stop new_service
listens_late = later now (start_settles listening none refl)

shut_down-starts_example :
    (worker_starts late_service ≡ worker_starts interrupted_service)
    × (bootstrap late_service ≡ (some cannot_bootstrap, late_service))
shut_down-starts_example =
    shut_down-starts failing interrupted-Reach interrupted-IsShutDown listens_late

abbrev awaits : List (Bool × Option Thrown)
awaits =
    (true, none)
    ∷ (false, none)
    ∷ (true, none)
    ∷ (false, none)
    ∷ (false, some (other_error "worker"))
    ∷ (false, none)
    ∷ (false, some (other_error "knex"))
    ∷ []

shutdown-ends_example :
    is_ended (settle_all failing awaits (shutdown failing interrupted_service)).stop_stage ≡ true
shutdown-ends_example = shutdown-ends failing interrupted-Reach awaits (omega arith)

-- HTTP fails to close, and the worker is not waited for.
abbrev settled : StopStage → Settlement → Service → Service
settled stage settlement s = resume_stop failing stage settlement s

abbrev failed_service : Service
failed_service = settled (closing_knex (some (other_error "http"))) (settles none) (
    settled (closing_rabbit_mq (some (other_error "http"))) (settles none)
      (settled closing_http (settles (some (other_error "http"))) interrupted_service))

failed-Reach : Reach failing failed_service
unfolding bootstrap shutdown begin_stop new_service resume_stop
failed-Reach =
    next
      (next
        (next interrupted-Reach
          (stop_settles closing_http (settles (some (other_error "http"))) refl))
        (stop_settles (closing_rabbit_mq (some (other_error "http"))) (settles none) refl))
      (stop_settles (closing_knex (some (other_error "http"))) (settles none) refl)

failed-ended : failed_service.stop_stage ≡ some (ended (some (other_error "http")))
unfolding resume_stop
failed-ended = refl

Reach-Releases_example :
    Releases (some (other_error "http"), failed_service.state)
    × (failed_service.state.lifecycle_state ≡ stopped)
Reach-Releases_example =
    Reach-Releases failing (some (other_error "http")) failed-Reach failed-ended
