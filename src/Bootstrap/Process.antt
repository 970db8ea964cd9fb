-- ===== src/Bootstrap/Process.antt =====
-- services/payment-service/src/index.ts: `main`, the handlers of the signals and the exit code, as the
-- promises of the bootstrap settle, with the `forceExit` of
-- services/payment-service/src/bootstrap/container.ts.
pub mod Orderly
pub mod Exits
mod Tests
use payment_orchestration_pl.Prelude.{ℕ, ◌≡◌, Bool, true, false, Option, none, some}
use payment_orchestration_pl.Errors.{Thrown}
use payment_orchestration_pl.Bootstrap.{Resources, force_shutdown_after_deadline}
use payment_orchestration_pl.Bootstrap.Lifecycle.{
  StartStage, started, StopStage, ended, Service, new_service, bootstrap, shutdown, handle_signal,
  is_ended,
}
use payment_orchestration_pl.Bootstrap.Lifecycle

-- What `main` awaits, or how it has ended.
pub data MainStage : Type 0 where
  booting : MainStage
  -- the shutdown in the `catch`
  cleaning_up : (error : Thrown) → MainStage
  resolved : MainStage
  rejected : (error : Thrown) → MainStage

-- A handler runs once: `process.once`.
pub data HandlerStage : Type 0 where
  registered handling handled : HandlerStage

pub data Signal : Type 0 where
  sigterm sigint : Signal

pub record Process : Type 0 where
  pub service : Service
  pub main_stage : MainStage
  pub sigterm_handler : HandlerStage
  pub sigint_handler : HandlerStage
  pub exit_code : Option ℕ
  -- whether `process.exit` has ended it
  pub exited : Bool

-- `forceExit`, which is `process.exit`.
unfoldable pub process_exit : (code : ℕ) → Process → Process
process_exit code p = record p { exit_code = some code; exited = true }

unfoldable pub handle_fatal_error : Process → Process
handle_fatal_error p = record p { exit_code = some 1 }

-- `main`, up to its await.
unfoldable pub main : Process
unfolding bootstrap new_service
main = record {
  service = (bootstrap new_service).1;
  main_stage = booting;
  sigterm_handler = registered;
  sigint_handler = registered;
  exit_code = none;
  exited = false;
}

abbrev pub handler_of : Signal → Process → HandlerStage
handler_of sigterm p = p.sigterm_handler
handler_of sigint p = p.sigint_handler

abbrev pub with_handler : Signal → HandlerStage → Process → Process
with_handler sigterm h p = record p { sigterm_handler = h }
with_handler sigint h p = record p { sigint_handler = h }

module _ (r : Resources) where
  -- What the start-up has come to.
  abbrev pub after_bootstrap : Option StartStage → Process → Process
  after_bootstrap (some (started none)) p = record p { main_stage = resolved }
  after_bootstrap (some (started (some e))) p = record p {
    service = shutdown r p.service;
    main_stage = cleaning_up e;
  }
  after_bootstrap _ p = p

  -- The error of the shutdown is ignored, and that of the start-up is thrown.
  abbrev pub after_clean_up : Thrown → Option StopStage → Process → Process
  after_clean_up e (some (ended _)) p = handle_fatal_error (record p { main_stage = rejected e })
  after_clean_up e _ p = p

  unfoldable pub resume_main : MainStage → Process → Process
  unfolding handle_fatal_error shutdown
  resume_main booting p = after_bootstrap p.service.start_stage p
  resume_main (cleaning_up e) p = after_clean_up e p.service.stop_stage p
  resume_main _ p = p

  unfoldable pub receive : Signal → HandlerStage → Process → Process
  unfolding handle_signal
  receive signal registered p =
      with_handler signal handling (record p { service = handle_signal r p.service })
  receive signal _ p = p

  abbrev pub after_signal : Signal → Option StopStage → Process → Process
  after_signal signal (some (ended none)) p = with_handler signal handled p
  after_signal signal (some (ended (some e))) p = handle_fatal_error (with_handler signal handled p)
  after_signal signal _ p = p

  unfoldable pub resume_handler : Signal → HandlerStage → Process → Process
  unfolding handle_fatal_error
  resume_handler signal handling p = after_signal signal p.service.stop_stage p
  resume_handler signal _ p = p

  -- Besides `main` and the handlers, nobody calls the bootstrap: a promise settles.
  abbrev pub IsAwaited : {s t : Service} → Lifecycle.Step r s t → Type 0
  IsAwaited (Lifecycle.start_settles stage error e) = Unit
  IsAwaited (Lifecycle.stop_settles stage settlement e) = Unit
  IsAwaited _ = ⊥

  pub data Step (p : Process) : Process → Type 0 where
    lives :
        {s : Service} (step : Lifecycle.Step r p.service s)
        → IsAwaited step
        → Step p (record p { service = s })
    main_goes_on : Step p (resume_main p.main_stage p)
    receives : (signal : Signal) → Step p (receive signal (handler_of signal p) p)
    handler_goes_on : (signal : Signal) → Step p (resume_handler signal (handler_of signal p) p)
    -- the timer of a signal, at whose end the process exits
    deadline_passes :
        p.service.signalled ≡ true
        → is_ended p.service.stop_stage ≡ false
        → Step p (
            process_exit 1 (record p {
              service = record p.service {
                state = force_shutdown_after_deadline r p.service.state;
              };
            }))

  pub data Reach : Process → Type 0 where
    start : Reach main
    -- nothing happens in a process that has exited
    next : {p q : Process} → Reach p → p.exited ≡ false → Step p q → Reach q
