-- ===== src/Bootstrap/Process/Tests.antt =====
-- A process that cannot listen, and one that hangs.
use payment_orchestration_pl.Prelude.{◌≡◌, refl, true, none, some}
use payment_orchestration_pl.Errors.{Thrown, other_error}
use payment_orchestration_pl.Bootstrap.{
  Resources, new_bootstrap, close_rabbit_mq_once, close_knex, force_shutdown_after_deadline,
}
use payment_orchestration_pl.Bootstrap.Lifecycle.{
  new_service, bootstrap, resume_start, begin_stop, shutdown, handle_signal, resume_stop, listening,
  StopStage, closing_http, stopping_worker, closing_rabbit_mq, closing_knex, settles, start_settles,
  stop_settles,
}
use payment_orchestration_pl.Bootstrap.Process.{
  rejected, cleaning_up, booting, registered, sigterm, Process, process_exit, main, resume_main,
  receive, handle_fatal_error, lives, main_goes_on, receives, deadline_passes, Reach, start, next,
}
use payment_orchestration_pl.Bootstrap.Process.Exits.{IsForced, IsAccounted, Reach-IsAccounted}

-- Everything closes in time and without an error.
abbrev closing : Resources
closing = record {
  http_close = record { within_grace = true; error = none };
  worker_stop = record { within_grace = true; error = none };
  rabbit_mq_close = none;
  knex_destroy = none;
}

abbrev port_in_use : Thrown
port_in_use = other_error "listen EADDRINUSE"

abbrev failed_start : Process
failed_start = record main { service = resume_start listening (some port_in_use) main.service }

abbrev cleaning : Process
cleaning = resume_main closing booting failed_start

abbrev settled : StopStage → Process → Process
settled stage p = record p { service = resume_stop closing stage (settles none) p.service }

abbrev cleaned : Process
cleaned =
    settled (closing_knex none)
      (settled (closing_rabbit_mq none) (settled stopping_worker (settled closing_http cleaning)))

abbrev ended_process : Process
ended_process = resume_main closing (cleaning_up port_in_use) cleaned

cleaning-Reach : Reach closing cleaning
unfolding main bootstrap new_service new_bootstrap resume_start resume_main shutdown begin_stop
cleaning-Reach =
    next (next start refl (lives (start_settles listening (some port_in_use) refl) tt)) refl
      main_goes_on

cleaned-Reach : Reach closing cleaned
unfolding main bootstrap new_service new_bootstrap resume_start resume_main shutdown begin_stop
    resume_stop close_rabbit_mq_once close_knex
cleaned-Reach =
    next
      (next
        (next (next cleaning-Reach refl (lives (stop_settles closing_http (settles none) refl) tt))
          refl (lives (stop_settles stopping_worker (settles none) refl) tt))
        refl (lives (stop_settles (closing_rabbit_mq none) (settles none) refl) tt))
      refl (lives (stop_settles (closing_knex none) (settles none) refl) tt)

ended_process-Reach : Reach closing ended_process
unfolding main bootstrap new_service new_bootstrap resume_start resume_main shutdown begin_stop
    resume_stop close_rabbit_mq_once close_knex handle_fatal_error
ended_process-Reach = next cleaned-Reach refl main_goes_on

is_rejected : ended_process.main_stage ≡ rejected port_in_use
unfolding main bootstrap new_service new_bootstrap resume_start resume_main shutdown begin_stop
    resume_stop close_rabbit_mq_once close_knex handle_fatal_error
is_rejected = refl

Reach-IsAccounted_example : IsAccounted ended_process
Reach-IsAccounted_example = Reach-IsAccounted closing ended_process-Reach

-- A process that hangs after a signal, until the deadline.
abbrev signalled : Process
signalled = receive closing sigterm registered main

abbrev forced : Process
forced = process_exit 1 (record signalled {
  service = record signalled.service {
    state = force_shutdown_after_deadline closing signalled.service.state;
  };
})

forced-Reach : Reach closing forced
unfolding main bootstrap new_service new_bootstrap receive handle_signal shutdown begin_stop
forced-Reach = next (next start refl (receives sigterm)) refl (deadline_passes refl refl)

forced_by_deadline : IsForced forced
unfolding process_exit
forced_by_deadline = (Reach-IsAccounted closing forced-Reach).forced refl
