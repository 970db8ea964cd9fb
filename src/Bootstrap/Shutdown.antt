-- ===== src/Bootstrap/Shutdown.antt =====
-- What a shutdown of services/payment-service/src/bootstrap/payment-service-bootstrap.ts releases, and in
-- which order.
use mathlib.Core.List.{append_assoc}
use payment_orchestration_pl.Prelude.{
  ℕ, ◌+◌, ◌≡◌, refl, ◌∙◌, Bool, true, false, Option, none, some, List, [], ◌∷◌, ◌++◌, arith,
  if◌then◌else◌, inl, inr, Bool-cases,
}
use payment_orchestration_pl.Errors.{Thrown}
use payment_orchestration_pl.Bootstrap.{
  BootstrapLifecycleState, Call, close_http, stop_worker, close_rabbit_mq, destroy_knex,
  close_all_connections, force_exit, Bootstrap, Resources, Method, log, new_bootstrap,
  force_close_http_connections, close_rabbit_mq_once, close_knex, close_http_server,
  settles_within_grace, stop_outbox_worker, stop, force_shutdown_after_deadline, and_then,
  first_error,
}

abbrev pub is_rabbit_close : Call → Bool
is_rabbit_close close_rabbit_mq = true
is_rabbit_close _ = false

abbrev pub is_knex_destroy : Call → Bool
is_knex_destroy destroy_knex = true
is_knex_destroy _ = false

-- How often a call was made.
unfoldable pub count_calls : (Call → Bool) → List Call → ℕ
count_calls p [] = 0
count_calls p (c ∷ cs) = (if p c then 1 else 0) + count_calls p cs

pub count_calls-log :
    (p : Call → Bool) (cs : List Call) (c : Call)
    → count_calls p (cs ++ c ∷ []) ≡ count_calls p cs + (if p c then 1 else 0)
unfolding count_calls
count_calls-log p [] c = omega arith
count_calls-log p (x ∷ cs) c = omega (arith, count_calls-log p cs c)

-- RabbitMQ and Knex have been closed as often as their promises say: once or not at all.
pub record IsOnce (b : Bootstrap) : Type 0 where
  pub rabbit_mq : count_calls is_rabbit_close b.calls ≡ (if b.rabbit_mq_close_promise then 1 else 0)
  pub knex : count_calls is_knex_destroy b.calls ≡ (if b.knex_destroy_promise then 1 else 0)

pub new_bootstrap-IsOnce : IsOnce new_bootstrap
unfolding new_bootstrap count_calls
new_bootstrap-IsOnce = record { rabbit_mq = refl; knex = refl }

-- Another call leaves the counts.
pub other-IsOnce :
    (b b' : Bootstrap) (c : Call)
    → is_rabbit_close c ≡ false
    → is_knex_destroy c ≡ false
    → b'.calls ≡ b.calls ++ c ∷ []
    → b'.rabbit_mq_close_promise ≡ b.rabbit_mq_close_promise
    → b'.knex_destroy_promise ≡ b.knex_destroy_promise
    → IsOnce b
    → IsOnce b'
other-IsOnce b b' c r k e er ek v = record {
  rabbit_mq = ground (arith, v.rabbit_mq, count_calls-log is_rabbit_close b.calls c, r, e, er);
  knex = ground (arith, v.knex, count_calls-log is_knex_destroy b.calls c, k, e, ek);
}

and_then-IsOnce :
    (m k : Method) (b : Bootstrap)
    → IsOnce (m b).1
    → ((b' : Bootstrap) → IsOnce b' → IsOnce (k b').1)
    → IsOnce (and_then m k b).1
and_then-IsOnce m k b h f = go (m b) h
  where
    go :
        (x : Option Thrown × Bootstrap)
        → IsOnce x.1
        → IsOnce
            (let y : Option Thrown × Bootstrap = elim x.0 [
              | none ↦ k x.1
              | some e ↦ (some e, x.1)
            ] in
              y).1
    go (none, b') h' = f b' h'
    go (some e, b') h' = h'

if-IsOnce :
    (c : Bool) (x y : Option Thrown × Bootstrap)
    → IsOnce x.1
    → IsOnce y.1
    → IsOnce (if c then x else y).1
if-IsOnce true x y h k = h
if-IsOnce false x y h k = k

either-IsOnce : (c : Bool) (x y : Bootstrap) → IsOnce x → IsOnce y → IsOnce (if c then x else y)
either-IsOnce true x y h k = h
either-IsOnce false x y h k = k

pub forced-IsOnce : (b : Bootstrap) → IsOnce b → IsOnce (force_close_http_connections b)
unfolding force_close_http_connections
forced-IsOnce b v =
    other-IsOnce b (force_close_http_connections b) close_all_connections refl refl refl refl refl v

-- RabbitMQ and Knex are closed, each once.
pub record Releases (x : Option Thrown × Bootstrap) : Type 0 where
  pub once : IsOnce x.1
  pub rabbit_mq_closed : x.1.rabbit_mq_close_promise ≡ true
  pub knex_destroyed : x.1.knex_destroy_promise ≡ true

module _ (r : Resources) where
  pub rabbit-IsOnce : (b : Bootstrap) → IsOnce b → IsOnce (close_rabbit_mq_once r b).1
  unfolding close_rabbit_mq_once
  rabbit-IsOnce b v = record {
    rabbit_mq =
        ground (arith, v.rabbit_mq, count_calls-log is_rabbit_close b.calls close_rabbit_mq);
    knex = ground (arith, v.knex, count_calls-log is_knex_destroy b.calls close_rabbit_mq);
  }

  pub knex-IsOnce : (b : Bootstrap) → IsOnce b → IsOnce (close_knex r b).1
  unfolding close_knex
  knex-IsOnce b v = record {
    rabbit_mq = ground (arith, v.rabbit_mq, count_calls-log is_rabbit_close b.calls destroy_knex);
    knex = ground (arith, v.knex, count_calls-log is_knex_destroy b.calls destroy_knex);
  }

  rabbit_closed : (b : Bootstrap) → (close_rabbit_mq_once r b).1.rabbit_mq_close_promise ≡ true
  unfolding close_rabbit_mq_once
  rabbit_closed b = ground arith

  knex_closed :
      (b : Bootstrap)
      → ((close_knex r b).1.knex_destroy_promise ≡ true)
        × ((close_knex r b).1.rabbit_mq_close_promise ≡ b.rabbit_mq_close_promise)
  unfolding close_knex
  knex_closed b = ground arith

  http-IsOnce : (b : Bootstrap) → IsOnce b → IsOnce (close_http_server r b).1
  unfolding close_http_server
  http-IsOnce b v =
      let asked : IsOnce (log close_http b) =
        other-IsOnce b (log close_http b) close_http refl refl refl refl refl v in
      let late : Method = λ b'. (r.http_close.error, force_close_http_connections b') in
      if-IsOnce b.http_server _ _
        (and_then-IsOnce (settles_within_grace r r.http_close late)
          (λ b'. (none, record b' { http_server = false })) (log close_http b)
          (if-IsOnce r.http_close.within_grace _ _ asked (forced-IsOnce (log close_http b) asked))
          (λ b' h. record { rabbit_mq = h.rabbit_mq; knex = h.knex }))
        v

  worker-IsOnce : (b : Bootstrap) → IsOnce b → IsOnce (stop_outbox_worker r b).1
  unfolding stop_outbox_worker
  worker-IsOnce b v =
      let stopped : IsOnce (log stop_worker b) =
        other-IsOnce b (log stop_worker b) stop_worker refl refl refl refl refl v in
      elim (Bool-cases r.worker_stop.within_grace) [
        | inl early ↦ rw early stopped
        | inr late ↦ rw late (
            and_then-IsOnce (close_rabbit_mq_once r) (λ b'. (r.worker_stop.error, b'))
              (log stop_worker b) (rabbit-IsOnce (log stop_worker b) stopped) (λ b' h. h))
      ]

  -- From any state in which RabbitMQ and Knex were closed at most once, and whatever the closing
  -- of each resource comes to, `stop` ends with both closed exactly once.
  pub stop-Releases : (b : Bootstrap) → IsOnce b → Releases (stop r b)
  unfolding stop
  stop-Releases b v =
      let first = and_then (close_http_server r) (stop_outbox_worker r) in
      let a =
        and_then-IsOnce (close_http_server r) (stop_outbox_worker r) b (http-IsOnce b v)
          worker-IsOnce in
      let b₁ : Bootstrap = (first b).1 in
      let b₂ : Bootstrap = (close_rabbit_mq_once r b₁).1 in
      let (destroyed, kept) = knex_closed b₂ in
      record {
        once = knex-IsOnce b₂ (rabbit-IsOnce b₁ a);
        rabbit_mq_closed = kept ∙ rabbit_closed b₁;
        knex_destroyed = destroyed;
      }

  -- The forced shutdown keeps the same, and exits with the code 1 at its end.
  pub force_shutdown-Releases :
      (b : Bootstrap) → IsOnce b → Releases (none, force_shutdown_after_deadline r b)
  unfolding force_shutdown_after_deadline force_close_http_connections
  force_shutdown-Releases b v =
      let b₀ : Bootstrap = if b.http_server then force_close_http_connections b else b in
      let v₀ : IsOnce b₀ =
        either-IsOnce b.http_server (force_close_http_connections b) b (forced-IsOnce b v) v in
      let b₁ : Bootstrap = (close_rabbit_mq_once r b₀).1 in
      let b₂ : Bootstrap = (close_knex r b₁).1 in
      let (destroyed, kept) = knex_closed b₁ in
      record {
        once =
            other-IsOnce b₂ (log (force_exit 1) b₂) (force_exit 1) refl refl refl refl refl
              (knex-IsOnce b₁ (rabbit-IsOnce b₀ v₀));
        rabbit_mq_closed = kept ∙ rabbit_closed b₀;
        knex_destroyed = destroyed;
      }

-- Resources of which HTTP and the worker close in time, HTTP without an error.
abbrev pub orderly : (worker_error rabbit_mq_error knex_error : Option Thrown) → Resources
orderly worker_error rabbit_mq_error knex_error = record {
  http_close = record { within_grace = true; error = none };
  worker_stop = record { within_grace = true; error = worker_error };
  rabbit_mq_close = rabbit_mq_error;
  knex_destroy = knex_error;
}

-- A service that listens, and of which nothing has been closed yet.
abbrev pub listening : BootstrapLifecycleState → List Call → Bootstrap
listening state calls = record {
  http_server = true;
  bootstrap_promise = true;
  shutdown_promise = true;
  rabbit_mq_close_promise = false;
  knex_destroy_promise = false;
  lifecycle_state = state;
  calls = calls;
}

-- Where HTTP closes in time without an error and the worker stops in time, HTTP, the worker,
-- RabbitMQ and Knex are closed in this order, and the first error of the last three is thrown.
pub stop-order :
    (worker_error rabbit_mq_error knex_error : Option Thrown) (state : BootstrapLifecycleState)
    (calls : List Call)
    → (let x = stop (orderly worker_error rabbit_mq_error knex_error) (listening state calls) in
        (x.1.calls ≡ calls ++ (close_http ∷ stop_worker ∷ close_rabbit_mq ∷ destroy_knex ∷ []))
        × (x.0 ≡ first_error (first_error worker_error rabbit_mq_error) knex_error))
unfolding stop close_http_server stop_outbox_worker close_rabbit_mq_once close_knex
stop-order worker_error rabbit_mq_error knex_error state calls = (simp append_assoc refl, refl)
