-- ===== src/Bootstrap/Lifecycle/Ending.antt =====
-- How the shutdown of services/payment-service/src/bootstrap/payment-service-bootstrap.ts ends.
use payment_orchestration_pl.Prelude.{
  ℕ, ◌-◌, ◌≤◌, ◌≡◌, Bool, true, false, Option, none, some, List, [], ◌∷◌, arith, is_some, length,
  if◌then◌else◌,
}
use payment_orchestration_pl.Errors.{Thrown}
use payment_orchestration_pl.Bootstrap.{Resources}
use payment_orchestration_pl.Bootstrap.Lifecycle.{
  StopStage, closing_http, forcing_http, stopping_worker, closing_rabbit_mq_early, awaiting_worker,
  closing_rabbit_mq, closing_knex, ended, Settlement, settles, grace_ends, Service, begin_stop,
  shutdown, resume_stop, is_ended, Reach,
}
use payment_orchestration_pl.Bootstrap.Lifecycle.Safety.{InPhase, Reach-InPhase}

abbrev races : StopStage → Bool
races closing_http = true
races stopping_worker = true
races _ = false

-- An await ends with an error or none; a race may be late.
abbrev settlement : StopStage → (late : Bool) → Option Thrown → Settlement
settlement stage late e = if races stage then if late then grace_ends else settles e else settles e

abbrev stop_rest : Option StopStage → ℕ
stop_rest none = 0
stop_rest (some closing_http) = 7
stop_rest (some forcing_http) = 6
stop_rest (some stopping_worker) = 5
stop_rest (some closing_rabbit_mq_early) = 4
stop_rest (some awaiting_worker) = 3
stop_rest (some (closing_rabbit_mq e)) = 2
stop_rest (some (closing_knex e)) = 1
stop_rest (some (ended e)) = 0

abbrev Stops : Service → Type 0
Stops s = is_some s.stop_stage ≡ true

module _ (r : Resources) where
  unfoldable pub settle_next : (late : Bool) → Option Thrown → Service → Service
  unfolding resume_stop
  settle_next late e s = elim s.stop_stage [
    | none ↦ s
    | some stage ↦ resume_stop r stage (settlement stage late e) s
  ]

  unfoldable pub settle_all : List (Bool × Option Thrown) → Service → Service
  unfolding settle_next
  settle_all [] s = s
  settle_all ((late, e) ∷ outcomes) s = settle_all outcomes (settle_next late e s)

  settle_next-rest :
      (late : Bool) (e : Option Thrown) (s : Service)
      → Stops s
      → Stops (settle_next late e s)
        × (stop_rest (settle_next late e s).stop_stage ≤ stop_rest s.stop_stage - 1)
  unfolding settle_next resume_stop
  settle_next-rest late e s h = ground arith

  settle_all-rest :
      (outcomes : List (Bool × Option Thrown)) (s : Service)
      → Stops s
      → Stops (settle_all outcomes s)
        × (stop_rest (settle_all outcomes s).stop_stage ≤ stop_rest s.stop_stage - length outcomes)
  unfolding settle_all
  settle_all-rest [] s h = (h, omega arith)
  settle_all-rest ((late, e) ∷ outcomes) s h =
      let step = settle_next-rest late e s h in
      let later = settle_all-rest outcomes (settle_next late e s) step.0 in
      (later.0, omega (arith, step.1, later.1))

  rest-zero : (o : Option StopStage) → is_some o ≡ true → stop_rest o ≡ 0 → is_ended o ≡ true
  rest-zero o h e = ground arith

  rest-le : (o : Option StopStage) → stop_rest o ≤ 7
  rest-le o = ground arith

  shutdown-Stops : (s : Service) → InPhase s → Stops (shutdown r s)
  unfolding shutdown begin_stop
  shutdown-Stops s v = ground arith

  -- `shutdown`, called in any life of the payment service, has ended after at most seven awaits,
  -- whatever each of them comes to and however late HTTP and the worker are.
  pub shutdown-ends :
      {s : Service}
      → Reach r s
      → (outcomes : List (Bool × Option Thrown)) → 7 ≤ length outcomes
      → is_ended (settle_all outcomes (shutdown r s)).stop_stage ≡ true
  shutdown-ends {s} w outcomes l =
      let h : Stops (shutdown r s) = shutdown-Stops s (Reach-InPhase r w) in
      let after = settle_all-rest outcomes (shutdown r s) h in
      rest-zero _ after.0 (omega (arith, after.1, rest-le (shutdown r s).stop_stage))
