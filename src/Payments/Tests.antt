-- ===== src/Payments/Tests.antt =====
-- The properties of the payments service on concrete requests.
use payment_orchestration_pl.Prelude.{refl, ne_of_eq-false}
use payment_orchestration_pl.Errors.{err}
use payment_orchestration_pl.Tables.{first_where}
use payment_orchestration_pl.DataAccess.Rows.{completed, processing, IdempotencyRecord}
use payment_orchestration_pl.DataAccess.Payments.{meets_checks}
use payment_orchestration_pl.Exec.{World, transaction}
use payment_orchestration_pl.Providers.Contract.{AuthorizePaymentResult}
use payment_orchestration_pl.Providers.Mock.{authorize, mock_payment_provider}
use payment_orchestration_pl.Providers.Registry.{get_default_provider, provider_registry_service}
use payment_orchestration_pl.Idempotency.Service.{build_request_hash, reused_key, StartInput}
use payment_orchestration_pl.Payments.Service.{create, create_input, persist_authorization}
use payment_orchestration_pl.Payments.Fresh.Steps.{IsClear}
use payment_orchestration_pl.Payments.Fresh.{Creates, create_succeeds}
use payment_orchestration_pl.Payments.Retry.{SameAnswer, create_twice}
use payment_orchestration_pl.Payments.Ownership.{RollsBack, authorization-RollsBack}
use payment_orchestration_pl.Payments.Replies.{Reads, Untouched, create_reused}
use payment_orchestration_pl.Samples.{
  sample_service, sample_create, empty_db, quiet_world, sample_key, create_scope, capture_scope,
  keyed_db, sample_started,
}

abbrev fresh_world : World
fresh_world = quiet_world empty_db

fresh_world-IsClear : IsClear sample_service sample_create "mock-provider" "mock_u0" fresh_world
unfolding get_default_provider provider_registry_service mock_payment_provider authorize
    meets_checks first_where
fresh_world-IsClear = record {
  quiet = refl;
  approves = refl;
  named = ne_of_eq-false "mock_u0" "" refl;
  meets = refl;
  id_named = ne_of_eq-false "u0" "" refl;
  token_named = ne_of_eq-false "u1" "" refl;
  payment_free = refl;
  key_free = refl;
  record_free = refl;
  event_free = refl;
}

create_succeeds_example :
    Creates sample_service sample_create "mock-provider" "mock_u0" fresh_world
      (create sample_service sample_create fresh_world)
create_succeeds_example =
    create_succeeds sample_service sample_create "mock-provider" "mock_u0" fresh_world
      fresh_world-IsClear

create_twice_example :
    SameAnswer
      (create sample_service sample_create fresh_world)
      (create sample_service sample_create (create sample_service sample_create fresh_world).1)
create_twice_example =
    create_twice sample_service sample_create "mock-provider" "mock_u0" fresh_world
      fresh_world-IsClear

abbrev claimed_world : World
claimed_world = quiet_world (keyed_db (sample_key capture_scope processing))

authorization-RollsBack_example :
    RollsBack
      (transaction
        (persist_authorization sample_service sample_create sample_started
          (AuthorizePaymentResult.approved "mock-provider" "mock_u0")
          1000)
        fresh_world)
      fresh_world
unfolding first_where
authorization-RollsBack_example =
    authorization-RollsBack sample_service sample_create sample_started
      (AuthorizePaymentResult.approved "mock-provider" "mock_u0") 1000 fresh_world refl

-- Another request has taken the record over, under a token of its own.
abbrev taken_world : World
taken_world =
    quiet_world
      (keyed_db (record (sample_key capture_scope processing) { processing_token = "t2" }))

abbrev completed_create : IdempotencyRecord
completed_create = sample_key create_scope completed

abbrev asked_create : StartInput
asked_create = create_input sample_service sample_create "u0"

-- The first request under the key was for something else.
abbrev other_create : IdempotencyRecord
other_create = record completed_create { request_hash = "other" }

other_world-Reads : Reads asked_create (quiet_world (keyed_db other_create)) other_create
unfolding first_where
other_world-Reads = record { answers = refl; found = refl }

create_reused_example :
    Untouched
      (create sample_service sample_create (quiet_world (keyed_db other_create)))
      (err reused_key)
      (quiet_world (keyed_db other_create))
unfolding build_request_hash
create_reused_example =
    create_reused sample_service sample_create (quiet_world (keyed_db other_create)) other_create
      other_world-Reads (ne_of_eq-false "other" "hash" refl)
