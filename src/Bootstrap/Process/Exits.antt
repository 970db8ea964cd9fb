-- ===== src/Bootstrap/Process/Exits.antt =====
-- With which exit code, and in which state, the process of services/payment-service/src/index.ts ends.
use payment_orchestration_pl.Prelude.{
  ℕ, ◌≡◌, ◌⊎◌, inl, inr, refl, true, false, ◌||◌, Option, none, some, arith, Bool-cases,
}
use payment_orchestration_pl.Errors.{Thrown}
use payment_orchestration_pl.Bootstrap.{Resources, force_shutdown_after_deadline}
use payment_orchestration_pl.Bootstrap.Shutdown.{Releases, force_shutdown-Releases}
use payment_orchestration_pl.Bootstrap.Lifecycle.{
  StartStage, listening, starting_worker, started, StopStage, closing_http, forcing_http,
  stopping_worker, closing_rabbit_mq_early, awaiting_worker, closing_rabbit_mq, closing_knex, ended,
  Service, new_service, bootstrap, resume_start, begin_stop, shutdown, handle_signal, resume_stop,
  is_ended, bootstraps, start_settles, shuts_down, signals, stop_settles,
}
use payment_orchestration_pl.Bootstrap.Lifecycle
use payment_orchestration_pl.Bootstrap.Lifecycle.Safety.{Reach-IsOnce, Reach-Releases}
use payment_orchestration_pl.Bootstrap.Process.Orderly.{IsOrderly, Reach-life, Reach-IsOrderly}
use payment_orchestration_pl.Bootstrap.Process.{
  resolved, rejected, Process, process_exit, handle_fatal_error, main, resume_main, receive,
  resume_handler, Step, lives, main_goes_on, receives, handler_goes_on, deadline_passes, Reach,
  start, next,
}

-- The process has exited by the deadline of a signal: before the shutdown has ended, but with
-- RabbitMQ and Knex asked to close.
pub record IsForced (p : Process) : Type 0 where
  pub signalled : p.service.signalled ≡ true
  pub before_end : is_ended p.service.stop_stage ≡ false
  pub code : p.exit_code ≡ some 1
  pub releases : Releases (none, p.service.state)

abbrev pub HasEnded : Process → Type 0
HasEnded p =
    (e : Option Thrown) × (p.service.stop_stage ≡ some (ended e)) × Releases (e, p.service.state)

-- What is behind the exit code of a process, and behind the end of `main`.
pub record IsAccounted (p : Process) : Type 0 where
  pub exits : (code : ℕ) → p.exit_code ≡ some code → (code ≡ 1) × (IsForced p ⊎ HasEnded p)
  pub forced : p.exited ≡ true → IsForced p
  pub fails : (e : Thrown) → p.main_stage ≡ rejected e → p.exit_code ≡ some 1
  pub succeeds : p.main_stage ≡ resolved → p.service.start_stage ≡ some (started none)

is_ended-some :
    (stage : Option StopStage)
    → is_ended stage ≡ true
    → (e : Option Thrown) × (stage ≡ some (ended e))
is_ended-some none h = absurd (ground (arith, h))
is_ended-some (some (ended e)) h = (e, refl)
is_ended-some (some closing_http) h = absurd (ground (arith, h))
is_ended-some (some forcing_http) h = absurd (ground (arith, h))
is_ended-some (some stopping_worker) h = absurd (ground (arith, h))
is_ended-some (some closing_rabbit_mq_early) h = absurd (ground (arith, h))
is_ended-some (some awaiting_worker) h = absurd (ground (arith, h))
is_ended-some (some (closing_rabbit_mq x)) h = absurd (ground (arith, h))
is_ended-some (some (closing_knex x)) h = absurd (ground (arith, h))

module _ (r : Resources) where
  -- Only the deadline ends a process by `process.exit`.
  Step-IsForced :
      {p q : Process}
      → Step r p q
      → p.exited ≡ false
      → Lifecycle.Reach r p.service
      → q.exited ≡ true
      → IsForced q
  unfolding process_exit resume_main receive resume_handler handle_fatal_error
      force_shutdown_after_deadline
  Step-IsForced (lives step a) on w h = absurd (ground (arith, on, h))
  Step-IsForced {p} main_goes_on on w h = absurd (ground (arith, on, h))
  Step-IsForced (receives signal) on w h = absurd (ground (arith, on, h))
  Step-IsForced (handler_goes_on signal) on w h = absurd (ground (arith, on, h))
  Step-IsForced {p} (deadline_passes e f) on w h = record {
    signalled = e;
    before_end = f;
    code = refl;
    releases = force_shutdown-Releases r p.service.state (Reach-IsOnce r w);
  }

  Reach-IsForced : {p : Process} → Reach r p → p.exited ≡ true → IsForced p
  unfolding main
  Reach-IsForced start h = absurd (ground (arith, h))
  Reach-IsForced (next w on st) h = Step-IsForced st on (Reach-life r w) h

  exited-or_ended :
      (p : Process) (w : Reach r p)
      → (is_ended p.service.stop_stage || p.exited) ≡ true
      → IsForced p ⊎ HasEnded p
  exited-or_ended p w h = elim (Bool-cases p.exited) [
    | inl out ↦ inl (Reach-IsForced w out)
    | inr on ↦
        let (e, ended_so) = is_ended-some p.service.stop_stage (ground (arith, h, on)) in
        inr (e, ended_so, (Reach-Releases r e (Reach-life r w) ended_so).0)
  ]

  -- In every run of the process, with any signals, the exit code that is set, if any, is 1, and
  -- then RabbitMQ and Knex have each been asked to close exactly once, and either the shutdown has
  -- ended, or the deadline of a signal has passed before that and has ended the process by
  -- `process.exit`. A process that `process.exit` has ended is of the second kind; a `main` that
  -- rejects has set the code; and `main` resolves only when the start-up has succeeded.
  pub Reach-IsAccounted : {p : Process} → Reach r p → IsAccounted p
  Reach-IsAccounted {p} w =
      let v : IsOrderly p = Reach-IsOrderly r w in
      record {
        exits = λ code h. (ground (arith, h), exited-or_ended p w (ground (arith, h)));
        forced = Reach-IsForced w;
        fails = λ e h. ground (arith, h);
        succeeds = λ h. ground (arith, h);
      }
