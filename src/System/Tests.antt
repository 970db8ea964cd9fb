-- ===== src/System/Tests.antt =====
-- The properties of the whole system on concrete runs.
use payment_orchestration_pl.Prelude.{◌≡◌, refl, some, [], ◌∷◌}
use payment_orchestration_pl.DataAccess.Rows.{completed, Db}
use payment_orchestration_pl.DataAccess.Payments.{find_payment}
use payment_orchestration_pl.DataAccess.Idempotency.{find_record}
use payment_orchestration_pl.Tables.{first_where}
use payment_orchestration_pl.Exec.{World}
use payment_orchestration_pl.Payments.Service.{create, capture}
use payment_orchestration_pl.System.{Step, Reach}
use payment_orchestration_pl.System.Messages.{AreDescribed, KeepsMessages, Reach-KeepsMessages}
use payment_orchestration_pl.DataAccess.Outbox.{mark_published}
use payment_orchestration_pl.System.Requests.{create-Reach, capture-Reach}
use payment_orchestration_pl.System.Counts.{IsExact, events_about}
use payment_orchestration_pl.System.Exactness.{Reach-IsExact}
use payment_orchestration_pl.System.Lifecycle.{HasContinued, Reach-HasContinued}
use payment_orchestration_pl.System.Replay.{Reach-completed}
use payment_orchestration_pl.Samples.{
  sample_service, sample_create, sample_capture, empty_db, quiet_world, sample_payment, sample_key,
  create_scope, keyed_db, idle_tick,
}

abbrev busy_world : World
busy_world = record (quiet_world empty_db) { ticks = idle_tick ∷ idle_tick ∷ [] }

abbrev keyed_world : World
keyed_world = quiet_world (keyed_db (sample_key create_scope completed))

abbrev created_db : Db
created_db = (create sample_service sample_create (quiet_world empty_db)).1.db

create-Reach_example : Reach empty_db (create sample_service sample_create busy_world).1.db
create-Reach_example =
    create-Reach sample_service sample_create busy_world
      ((λ db. Reach.here), ((λ db. Reach.here), tt))

capture-Reach_example :
    Reach keyed_world.db (capture sample_service sample_capture keyed_world).1.db
capture-Reach_example = capture-Reach sample_service sample_capture keyed_world tt

empty_db-IsExact : IsExact empty_db
unfolding IsExact events_about first_where
empty_db-IsExact id t = refl

Reach-IsExact_example : IsExact created_db
Reach-IsExact_example =
    Reach-IsExact empty_db-IsExact
      (create-Reach sample_service sample_create (quiet_world empty_db) tt)

finds_key :
    find_record create_scope "key" keyed_world.db.idempotency_keys
    ≡ some (sample_key create_scope completed)
unfolding first_where
finds_key = refl

finds_payment : find_payment "p1" keyed_world.db.payments ≡ some sample_payment
unfolding first_where
finds_payment = refl

abbrev later_db : Db
later_db = (capture sample_service sample_capture keyed_world).1.db

Reach-completed_example :
    find_record create_scope "key" later_db.idempotency_keys
    ≡ some (sample_key create_scope completed)
Reach-completed_example =
    Reach-completed create_scope "key" (sample_key create_scope completed) finds_key refl
      (capture-Reach sample_service sample_capture keyed_world tt)

Reach-HasContinued_example : HasContinued "p1" sample_payment later_db
Reach-HasContinued_example =
    Reach-HasContinued "p1" sample_payment finds_payment
      (capture-Reach sample_service sample_capture keyed_world tt)

-- The event of the new payment, marked as published.
abbrev published_db : Db
published_db = (mark_published "u3" 5 created_db).1

created-AreDescribed : AreDescribed created_db.outbox_events
created-AreDescribed =
    (Reach-KeepsMessages tt
      (create-Reach sample_service sample_create (quiet_world empty_db) tt)).described

Reach-KeepsMessages_example : KeepsMessages created_db published_db
Reach-KeepsMessages_example =
    Reach-KeepsMessages created-AreDescribed (Reach.next Reach.here (Step.publish "u3" 5 refl))
