-- ===== src/Bootstrap.antt =====
-- services/payment-service/src/bootstrap/payment-service-bootstrap.ts. What the closing of each
-- resource comes to is a parameter; the calls on the resources are logged.
pub mod Shutdown
pub mod Lifecycle
pub mod Process
mod Tests
use payment_orchestration_pl.Prelude.{
  ℕ, ◌+◌, String, Bool, true, false, Option, none, some, List, [], ◌∷◌, ◌++◌, if◌then◌else◌,
}
use payment_orchestration_pl.Errors.{Thrown, other_error}

pub data BootstrapLifecycleState : Type 0 where
  idle starting running stopping stopped : BootstrapLifecycleState

-- A call on a resource.
pub data Call : Type 0 where
  listen close_http close_all_connections start_worker stop_worker close_rabbit_mq destroy_knex :
      Call
  force_exit : (code : ℕ) → Call

-- The promise flags say whether the field is set.
pub record Bootstrap : Type 0 where
  pub http_server : Bool
  pub bootstrap_promise : Bool
  pub shutdown_promise : Bool
  pub rabbit_mq_close_promise : Bool
  pub knex_destroy_promise : Bool
  pub lifecycle_state : BootstrapLifecycleState
  pub calls : List Call

unfoldable pub new_bootstrap : Bootstrap
new_bootstrap = record {
  http_server = false;
  bootstrap_promise = false;
  shutdown_promise = false;
  rabbit_mq_close_promise = false;
  knex_destroy_promise = false;
  lifecycle_state = idle;
  calls = [];
}

abbrev pub log : Call → Bootstrap → Bootstrap
log call b = record b { calls = b.calls ++ call ∷ [] }

-- How a promise settles, `none` where it resolves, and whether before the grace period is over.
pub record Settling : Type 0 where
  pub within_grace : Bool
  pub error : Option Thrown

pub record Resources : Type 0 where
  pub http_close : Settling
  pub worker_stop : Settling
  pub rabbit_mq_close : Option Thrown
  pub knex_destroy : Option Thrown

-- An asynchronous method: what it throws, and the state that it leaves.
abbrev pub Method : Type 0
Method = Bootstrap → Option Thrown × Bootstrap

abbrev pub and_then : Method → Method → Method
and_then m k b = let (e, b') = m b in elim e [ none ↦ k b' | some x ↦ (some x, b') ]

-- `firstError ??= error`
abbrev pub first_error : Option Thrown → Option Thrown → Option Thrown
first_error none e = e
first_error (some x) e = some x

-- `try { await method() } catch (error) { firstError ??= error }`
abbrev pub and_try : Method → Method → Method
and_try m k b = let (e, b') = m b in let (e', b'') = k b' in (first_error e e', b'')

-- `forceCloseHttpConnections`, for the server that the field holds.
unfoldable pub force_close_http_connections : Bootstrap → Bootstrap
force_close_http_connections b = log close_all_connections (record b { http_server = false })

module _ (r : Resources) where
  unfoldable pub close_rabbit_mq_once : Method
  close_rabbit_mq_once b =
      if b.rabbit_mq_close_promise
      then (r.rabbit_mq_close, b)
      else (r.rabbit_mq_close, log close_rabbit_mq (record b { rabbit_mq_close_promise = true }))

  unfoldable pub close_knex : Method
  close_knex b =
      if b.knex_destroy_promise
      then (r.knex_destroy, b)
      else (r.knex_destroy, log destroy_knex (record b { knex_destroy_promise = true }))

  -- The race of a promise against the grace period, with what follows a late one.
  abbrev pub settles_within_grace :
      Settling → (late : Bootstrap → Option Thrown × Bootstrap) → Method
  settles_within_grace s late b = if s.within_grace then (s.error, b) else late b

  unfoldable pub close_http_server : Method
  unfolding force_close_http_connections
  close_http_server b =
      if b.http_server
      then and_then
          (settles_within_grace r.http_close
            (λ b'. (r.http_close.error, force_close_http_connections b')))
          (λ b'. (none, record b' { http_server = false })) (log close_http b)
      else (none, b)

  -- The worker's stop; if it is late, RabbitMQ is closed before it is waited for.
  unfoldable pub stop_outbox_worker : Method
  unfolding close_rabbit_mq_once
  stop_outbox_worker b =
      settles_within_grace r.worker_stop
        (and_then close_rabbit_mq_once (λ b'. (r.worker_stop.error, b'))) (log stop_worker b)

  unfoldable pub stop : Method
  unfolding close_http_server stop_outbox_worker close_knex
  stop =
      and_try (and_try (and_then close_http_server stop_outbox_worker) close_rabbit_mq_once)
        close_knex

  -- The timer of `handleSignal`: `forceShutdownAfterDeadline`.
  unfoldable pub force_shutdown_after_deadline : Bootstrap → Bootstrap
  unfolding force_close_http_connections close_rabbit_mq_once close_knex
  force_shutdown_after_deadline b =
      let b' = if b.http_server then force_close_http_connections b else b in
      let (e, b'') = close_rabbit_mq_once b' in
      let (e', b''') = close_knex b'' in log (force_exit 1) b'''
