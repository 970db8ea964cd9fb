-- ===== src/Bootstrap/Lifecycle/Agreement.antt =====
-- The stages of `stop` and the whole of it,
-- services/payment-service/src/bootstrap/payment-service-bootstrap.ts.
use payment_orchestration_pl.Prelude.{
  ℕ, zero, suc, ◌≡◌, refl, Bool, true, false, Option, none, some, if◌then◌else◌,
}
use payment_orchestration_pl.Errors.{Thrown}
use payment_orchestration_pl.Bootstrap.{
  BootstrapLifecycleState, Resources, Settling, stop, close_http_server, stop_outbox_worker,
  close_rabbit_mq_once, close_knex,
}
use payment_orchestration_pl.Bootstrap.Lifecycle.{
  StopStage, closing_http, forcing_http, stopping_worker, closing_rabbit_mq_early, awaiting_worker,
  closing_rabbit_mq, closing_knex, ended, Settlement, settles, grace_ends, Service, begin_stop,
  resume_stop,
}

abbrev pub race : Settling → Settlement
race s = if s.within_grace then settles s.error else grace_ends

module _ (r : Resources) where
  -- How the await of a stage ends, by what the closing of the resources comes to.
  abbrev pub settlement_of : StopStage → Settlement
  settlement_of closing_http = race r.http_close
  settlement_of forcing_http = settles r.http_close.error
  settlement_of stopping_worker = race r.worker_stop
  settlement_of closing_rabbit_mq_early = settles r.rabbit_mq_close
  settlement_of awaiting_worker = settles r.worker_stop.error
  settlement_of (closing_rabbit_mq e) = settles r.rabbit_mq_close
  settlement_of (closing_knex e) = settles r.knex_destroy
  settlement_of (ended e) = settles none

  unfoldable pub run_stop : ℕ → Service → Service
  unfolding resume_stop
  run_stop zero s = s
  run_stop (suc n) s = elim s.stop_stage [
    | none ↦ s
    | some stage ↦ run_stop n (resume_stop r stage (settlement_of stage) s)
  ]

  abbrev pub stopped_by : Service → Service
  stopped_by s = record s {
    state = record (stop r s.state).1 { lifecycle_state = BootstrapLifecycleState.stopped };
    stop_stage = some (ended (stop r s.state).0);
  }

abbrev resources :
    (http worker : Bool) (http_error worker_error rabbit_error knex_error : Option Thrown)
    → Resources
resources http worker http_error worker_error rabbit_error knex_error = record {
  http_close = record { within_grace = http; error = http_error };
  worker_stop = record { within_grace = worker; error = worker_error };
  rabbit_mq_close = rabbit_error;
  knex_destroy = knex_error;
}

abbrev with_flags : (http rabbit knex : Bool) → Service → Service
with_flags http rabbit knex s = record s {
  state = record s.state {
    http_server = http;
    rabbit_mq_close_promise = rabbit;
    knex_destroy_promise = knex;
  };
}

abbrev Agree :
    (serves http : Bool) (http_error : Option Thrown) (worker : Bool) (worker_error : Option Thrown)
    (rabbit_error knex_error : Option Thrown) (s : Service) (rabbit knex : Bool)
    → Type 0
Agree serves http http_error worker worker_error rabbit_error knex_error s rabbit knex =
    let r = resources http worker http_error worker_error rabbit_error knex_error in
    let s' = with_flags serves rabbit knex s in run_stop r 7 (begin_stop r s') ≡ stopped_by r s'

both :
    (P : Bool → Bool → Type 0)
    → P true true
    → P true false
    → P false true
    → P false false
    → (a b : Bool) → P a b
both P tt' tf ft ff true true = tt'
both P tt' tf ft ff true false = tf
both P tt' tf ft ff false true = ft
both P tt' tf ft ff false false = ff

-- The flags decide which calls are made, and the rest what is awaited.
agree :
    (serves http : Bool) (http_error : Option Thrown) (worker : Bool) (worker_error : Option Thrown)
    (rabbit_error knex_error : Option Thrown) (s : Service) (rabbit knex : Bool)
    → Agree serves http http_error worker worker_error rabbit_error knex_error s rabbit knex
unfolding stop close_http_server stop_outbox_worker run_stop begin_stop close_rabbit_mq_once
    close_knex
agree false h he true we re ke s = both (Agree false h he true we re ke s) refl refl refl refl
agree false h he false we none ke s = both (Agree false h he false we none ke s) refl refl refl refl
agree false h he false we (some e) ke s =
    both (Agree false h he false we (some e) ke s) refl refl refl refl
agree true true none true we re ke s =
    both (Agree true true none true we re ke s) refl refl refl refl
agree true true none false we none ke s =
    both (Agree true true none false we none ke s) refl refl refl refl
agree true true none false we (some e) ke s =
    both (Agree true true none false we (some e) ke s) refl refl refl refl
agree true true (some e) w we re ke s =
    both (Agree true true (some e) w we re ke s) refl refl refl refl
agree true false none true we re ke s =
    both (Agree true false none true we re ke s) refl refl refl refl
agree true false none false we none ke s =
    both (Agree true false none false we none ke s) refl refl refl refl
agree true false none false we (some e) ke s =
    both (Agree true false none false we (some e) ke s) refl refl refl refl
agree true false (some e) w we re ke s =
    both (Agree true false (some e) w we re ke s) refl refl refl refl

-- The stages, run one after the other by what the closings come to, make the calls of `stop`, and
-- end with what it throws.
pub begin_stop-run_stop :
    (r : Resources) (s : Service) → run_stop r 7 (begin_stop r s) ≡ stopped_by r s
begin_stop-run_stop r s =
    agree s.state.http_server r.http_close.within_grace r.http_close.error
      r.worker_stop.within_grace r.worker_stop.error r.rabbit_mq_close r.knex_destroy s
      s.state.rabbit_mq_close_promise s.state.knex_destroy_promise
