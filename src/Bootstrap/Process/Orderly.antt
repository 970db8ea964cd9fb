-- ===== src/Bootstrap/Process/Orderly.antt =====
-- What every run of the process of services/payment-service/src/index.ts keeps.
use mathlib.Core.Path.{subst}
use payment_orchestration_pl.Prelude.{ℕ, ◌≡◌, Bool, true, false, ◌||◌, Option, none, some, arith}
use payment_orchestration_pl.Errors.{Thrown}
use payment_orchestration_pl.Bootstrap.{
  Resources, force_close_http_connections, close_rabbit_mq_once, close_knex,
  force_shutdown_after_deadline,
}
use payment_orchestration_pl.Bootstrap.Lifecycle.{
  StartStage, listening, starting_worker, started, StopStage, closing_http, forcing_http,
  stopping_worker, closing_rabbit_mq_early, awaiting_worker, closing_rabbit_mq, closing_knex, ended,
  Service, new_service, bootstrap, resume_start, begin_stop, shutdown, handle_signal, resume_stop,
  is_ended, bootstraps, start_settles, shuts_down, signals, stop_settles,
}
use payment_orchestration_pl.Bootstrap.Lifecycle
use payment_orchestration_pl.Bootstrap.Lifecycle.Safety.{InPhase, Reach-InPhase}
use payment_orchestration_pl.Bootstrap.Process.{
  MainStage, booting, cleaning_up, resolved, rejected, Signal, sigterm, sigint, HandlerStage,
  registered, handling, handled, Process, process_exit, handle_fatal_error, main, handler_of,
  after_bootstrap, after_clean_up, resume_main, receive, resume_handler, Step, lives, main_goes_on,
  receives, handler_goes_on, deadline_passes, Reach, start, next,
}

abbrev pub ExitOk : Option ℕ → Option StopStage → (exited : Bool) → Type 0
ExitOk none stage exited = exited ≡ false
ExitOk (some code) stage exited = (code ≡ 1) × ((is_ended stage || exited) ≡ true)

abbrev pub MainOk : MainStage → Process → Type 0
MainOk resolved p = p.service.start_stage ≡ some (started none)
MainOk (cleaning_up e) p = p.service.state.shutdown_promise ≡ true
MainOk (rejected e) p = p.exit_code ≡ some 1
MainOk booting p = Unit

pub record IsOrderly (p : Process) : Type 0 where
  pub exit : ExitOk p.exit_code p.service.stop_stage p.exited
  pub stage : MainOk p.main_stage p

module _ (r : Resources) where
  Step-IsOrderly :
      {s t : Service} (p : Process)
      → Lifecycle.Step r s t
      → InPhase s
      → IsOrderly (record p { service = s })
      → IsOrderly (record p { service = t })
  unfolding bootstrap resume_start shutdown handle_signal begin_stop resume_stop
      close_rabbit_mq_once close_knex force_close_http_connections force_shutdown_after_deadline
  Step-IsOrderly {s} p bootstraps v w = ground arith
  Step-IsOrderly {s} p (start_settles stage error e) v w = ground arith
  Step-IsOrderly {s} p shuts_down v w = ground arith
  Step-IsOrderly {s} p signals v w = ground arith
  Step-IsOrderly {s} p (stop_settles stage settlement e) v w = ground arith
  Step-IsOrderly {s} p (Lifecycle.deadline_passes e f) v w = ground arith

  after_bootstrap-life :
      (stage : Option StartStage) (p : Process)
      → Lifecycle.Reach r p.service
      → Lifecycle.Reach r (after_bootstrap r stage p).service
  after_bootstrap-life none p w = w
  after_bootstrap-life (some listening) p w = w
  after_bootstrap-life (some starting_worker) p w = w
  after_bootstrap-life (some (started none)) p w = w
  after_bootstrap-life (some (started (some e))) p w = Lifecycle.next w shuts_down

  after_clean_up-service :
      (e : Thrown) (stage : Option StopStage) (p : Process)
      → p.service ≡ (after_clean_up r e stage p).service
  unfolding handle_fatal_error
  after_clean_up-service e stage p = ground arith

  resume_main-life :
      (m : MainStage) (p : Process)
      → Lifecycle.Reach r p.service
      → Lifecycle.Reach r (resume_main r m p).service
  unfolding resume_main handle_fatal_error
  resume_main-life booting p w = after_bootstrap-life p.service.start_stage p w
  resume_main-life (cleaning_up e) p w =
      subst (Lifecycle.Reach r) (after_clean_up-service e p.service.stop_stage p) w
  resume_main-life resolved p w = w
  resume_main-life (rejected e) p w = w

  receive-life :
      (signal : Signal) (h : HandlerStage) (p : Process)
      → Lifecycle.Reach r p.service
      → Lifecycle.Reach r (receive r signal h p).service
  unfolding receive handle_signal
  receive-life sigterm registered p w = Lifecycle.next w signals
  receive-life sigint registered p w = Lifecycle.next w signals
  receive-life signal handling p w = w
  receive-life signal handled p w = w

  resume_handler-service :
      (signal : Signal) (h : HandlerStage) (p : Process)
      → p.service ≡ (resume_handler r signal h p).service
  unfolding resume_handler handle_fatal_error
  resume_handler-service signal h p = ground arith

  Step-life :
      {p q : Process} → Step r p q → Lifecycle.Reach r p.service → Lifecycle.Reach r q.service
  unfolding process_exit
  Step-life (lives step a) w = Lifecycle.next w step
  Step-life (deadline_passes e f) w = Lifecycle.next w (Lifecycle.deadline_passes e f)
  Step-life {p} main_goes_on w = resume_main-life p.main_stage p w
  Step-life {p} (receives signal) w = receive-life signal (handler_of signal p) p w
  Step-life {p} (handler_goes_on signal) w =
      subst (Lifecycle.Reach r) (resume_handler-service signal (handler_of signal p) p) w

  pub Reach-life : {p : Process} → Reach r p → Lifecycle.Reach r p.service
  unfolding main
  Reach-life start = Lifecycle.next Lifecycle.start bootstraps
  Reach-life (next w on st) = Step-life st (Reach-life w)

  resume_main-IsOrderly :
      (p : Process) → InPhase p.service → IsOrderly p → IsOrderly (resume_main r p.main_stage p)
  unfolding resume_main handle_fatal_error shutdown begin_stop
  resume_main-IsOrderly p v w = ground arith

  receive-IsOrderly :
      (signal : Signal) (p : Process)
      → InPhase p.service
      → IsOrderly p
      → IsOrderly (receive r signal (handler_of signal p) p)
  unfolding receive handle_signal shutdown begin_stop
  receive-IsOrderly signal p v w = ground arith

  resume_handler-IsOrderly :
      (signal : Signal) (p : Process)
      → IsOrderly p
      → IsOrderly (resume_handler r signal (handler_of signal p) p)
  unfolding resume_handler handle_fatal_error
  resume_handler-IsOrderly signal p w = ground arith

  main-IsOrderly : IsOrderly main
  unfolding main
  main-IsOrderly = ground arith

  process_exit-IsOrderly : (p : Process) → IsOrderly p → IsOrderly (process_exit 1 p)
  unfolding process_exit
  process_exit-IsOrderly p v = ground arith

  Step-Orderly : {p q : Process} → Step r p q → InPhase p.service → IsOrderly p → IsOrderly q
  Step-Orderly {p} (lives step a) v w = Step-IsOrderly p step v w
  Step-Orderly {p} main_goes_on v w = resume_main-IsOrderly p v w
  Step-Orderly {p} (receives signal) v w = receive-IsOrderly signal p v w
  Step-Orderly {p} (handler_goes_on signal) v w = resume_handler-IsOrderly signal p w
  Step-Orderly {p} (deadline_passes e f) v w =
      process_exit-IsOrderly _ (Step-IsOrderly p (Lifecycle.deadline_passes e f) v w)

  pub Reach-IsOrderly : {p : Process} → Reach r p → IsOrderly p
  Reach-IsOrderly start = main-IsOrderly
  Reach-IsOrderly (next w on st) =
      Step-Orderly st (Reach-InPhase r (Reach-life w)) (Reach-IsOrderly w)
