-- ===== src/Bootstrap/Lifecycle/Starts.antt =====
-- When the worker of the payment service is started,
-- services/payment-service/src/bootstrap/payment-service-bootstrap.ts.
use payment_orchestration_pl.Prelude.{
  ℕ, ◌≤◌, ◌≡◌, refl, ◌∙◌, Bool, true, false, Option, none, some, arith, if◌then◌else◌,
}
use payment_orchestration_pl.Bootstrap.{
  Call, listen, close_http, close_all_connections, start_worker, stop_worker, close_rabbit_mq,
  destroy_knex, force_exit, Bootstrap, new_bootstrap, force_close_http_connections, Resources,
  close_rabbit_mq_once, close_knex, force_shutdown_after_deadline,
}
use payment_orchestration_pl.Bootstrap.Shutdown.{count_calls, count_calls-log}
use payment_orchestration_pl.Bootstrap.Lifecycle.{
  StartStage, listening, StopStage, Settlement, Service, new_service, bootstrap, cannot_bootstrap,
  resume_start, begin_stop, shutdown, handle_signal, resume_stop, Step, bootstraps, start_settles,
  shuts_down, signals, stop_settles, deadline_passes, Reach, start, next,
}
use payment_orchestration_pl.Bootstrap.Lifecycle.Safety.{InPhase, Step-InPhase, Reach-InPhase}

abbrev pub is_worker_start : Call → Bool
is_worker_start start_worker = true
is_worker_start _ = false

abbrev pub worker_starts : Service → ℕ
worker_starts s = count_calls is_worker_start s.state.calls

abbrev pub before_worker : Option StartStage → Bool
before_worker none = true
before_worker (some listening) = true
before_worker (some _) = false

module _ (r : Resources) where
  -- The calls that start the worker.
  starts-rabbit_mq :
      (b : Bootstrap)
      → count_calls is_worker_start (close_rabbit_mq_once r b).1.calls
        ≡ count_calls is_worker_start b.calls
  unfolding close_rabbit_mq_once
  starts-rabbit_mq b = ground (arith, count_calls-log is_worker_start b.calls close_rabbit_mq)

  starts-knex :
      (b : Bootstrap)
      → count_calls is_worker_start (close_knex r b).1.calls ≡ count_calls is_worker_start b.calls
  unfolding close_knex
  starts-knex b = ground (arith, count_calls-log is_worker_start b.calls destroy_knex)

  starts-close_http :
      (b : Bootstrap)
      → count_calls is_worker_start (force_close_http_connections b).calls
        ≡ count_calls is_worker_start b.calls
  unfolding force_close_http_connections
  starts-close_http b =
      ground (arith, count_calls-log is_worker_start b.calls close_all_connections)

  starts-force_shutdown :
      (b : Bootstrap)
      → count_calls is_worker_start (force_shutdown_after_deadline r b).calls
        ≡ count_calls is_worker_start b.calls
  unfolding force_shutdown_after_deadline
  starts-force_shutdown b =
      let b₀ : Bootstrap = if b.http_server then force_close_http_connections b else b in
      let b₁ : Bootstrap = (close_rabbit_mq_once r b₀).1 in
      let b₂ : Bootstrap = (close_knex r b₁).1 in
      ground (
        arith,
        starts-close_http b,
        starts-rabbit_mq b₀,
        starts-knex b₁,
        count_calls-log is_worker_start b₂.calls (force_exit 1),
      )

  starts-shutdown : (s : Service) → worker_starts (shutdown r s) ≡ worker_starts s
  unfolding shutdown begin_stop
  starts-shutdown s = ground (
    arith,
    count_calls-log is_worker_start s.state.calls close_http,
    count_calls-log is_worker_start s.state.calls stop_worker,
  )

  starts-resume_stop :
      (stage : StopStage) (x : Settlement) (s : Service)
      → worker_starts (resume_stop r stage x s) ≡ worker_starts s
  unfolding resume_stop
  starts-resume_stop stage x s = ground (
    arith,
    starts-rabbit_mq s.state,
    starts-knex s.state,
    starts-close_http s.state,
    count_calls-log is_worker_start s.state.calls stop_worker,
  )

  starts-bootstrap : (s : Service) → worker_starts (bootstrap s).1 ≡ worker_starts s
  unfolding bootstrap
  starts-bootstrap s = ground (arith, count_calls-log is_worker_start s.state.calls listen)

  -- The worker is started at most once, and not before HTTP listens.
  pub record StartsOnce (s : Service) : Type 0 where
    pub before : before_worker s.start_stage ≡ true → worker_starts s ≡ 0
    pub at_most : worker_starts s ≤ 1

  Step-StartsOnce : {s t : Service} → Step r s t → InPhase s → StartsOnce s → StartsOnce t
  unfolding handle_signal shutdown begin_stop resume_stop bootstrap resume_start
  Step-StartsOnce {s} bootstraps v h = ground (arith, h.before, h.at_most, starts-bootstrap s)
  Step-StartsOnce {s} (start_settles stage error e) v h =
      ground
        (arith, h.before, h.at_most, count_calls-log is_worker_start s.state.calls start_worker)
  Step-StartsOnce {s} shuts_down v h = ground (arith, h.before, h.at_most, starts-shutdown s)
  Step-StartsOnce {s} signals v h =
      ground (arith, h.before, h.at_most, starts-shutdown (record s { signalled = true }))
  Step-StartsOnce {s} (stop_settles stage settlement e) v h =
      ground (arith, h.before, h.at_most, starts-resume_stop stage settlement s)
  Step-StartsOnce {s} (deadline_passes e f) v h =
      ground (arith, h.before, h.at_most, starts-force_shutdown s.state)

  new_service-StartsOnce : StartsOnce new_service
  unfolding new_service new_bootstrap count_calls
  new_service-StartsOnce = ground arith

  -- In any life.
  pub Reach-StartsOnce : {s : Service} → Reach r s → StartsOnce s
  Reach-StartsOnce start = new_service-StartsOnce
  Reach-StartsOnce (next w st) = Step-StartsOnce st (Reach-InPhase r w) (Reach-StartsOnce w)

  pub data Later (s : Service) : Service → Type 0 where
    now : Later s s
    later : {t u : Service} → Later s t → Step r t u → Later s u

  -- A service that is being shut down, or has been.
  abbrev pub IsShutDown : Service → Type 0
  IsShutDown s = s.state.shutdown_promise ≡ true

  Step-starts :
      {s t : Service}
      → Step r s t
      → InPhase s
      → IsShutDown s
      → IsShutDown t × (worker_starts t ≡ worker_starts s)
  unfolding handle_signal shutdown begin_stop resume_stop bootstrap resume_start
      force_shutdown_after_deadline force_close_http_connections close_rabbit_mq_once close_knex
  Step-starts {s} bootstraps v h = ground (arith, starts-bootstrap s)
  Step-starts {s} (start_settles stage error e) v h = ground arith
  Step-starts {s} shuts_down v h = ground (arith, starts-shutdown s)
  Step-starts {s} signals v h = ground (arith, starts-shutdown (record s { signalled = true }))
  Step-starts {s} (stop_settles stage settlement e) v h =
      ground (arith, starts-resume_stop stage settlement s)
  Step-starts {s} (deadline_passes e f) v h = ground (arith, starts-force_shutdown s.state)

  Later-InPhase : {s t : Service} → Later s t → InPhase s → InPhase t
  Later-InPhase now v = v
  Later-InPhase (later w st) v = Step-InPhase r st (Later-InPhase w v)

  Later-starts :
      {s t : Service}
      → Later s t
      → InPhase s
      → IsShutDown s
      → IsShutDown t × (worker_starts t ≡ worker_starts s)
  Later-starts now v h = (h, refl)
  Later-starts (later w st) v h =
      let before = Later-starts w v h in
      let step = Step-starts st (Later-InPhase w v) before.0 in (step.0, step.1 ∙ before.1)

  -- Once `shutdown` was called in a life of the payment service, nothing that follows starts the
  -- outbox worker, a start-up that is under way included, and `bootstrap` throws.
  pub shut_down-starts :
      {s t : Service}
      → Reach r s
      → IsShutDown s
      → Later s t
      → (worker_starts t ≡ worker_starts s) × (bootstrap t ≡ (some cannot_bootstrap, t))
  unfolding bootstrap
  shut_down-starts {s} {t} w h l =
      let v : InPhase t = Later-InPhase l (Reach-InPhase r w) in
      let kept = Later-starts l (Reach-InPhase r w) h in
      let shut : IsShutDown t = kept.0 in (kept.1, ground arith)
