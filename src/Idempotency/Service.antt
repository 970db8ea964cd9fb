-- ===== src/Idempotency/Service.antt =====
-- services/payment-service/src/services/idempotency/idempotency-service.ts
use payment_orchestration_pl.Prelude.{
  ℕ, ◌+◌, String, Bool, true, false, Option, none, some, ◌==◌, leb, if◌then◌else◌, get_or,
}
use payment_orchestration_pl.Errors.{Thrown, api_error, Result, ok, err}
use payment_orchestration_pl.Json.{Json}
use payment_orchestration_pl.DataAccess.Rows.{
  IdempotencyStatus, processing, IdempotencyRecord, ResponseBody, dto, text,
}
use payment_orchestration_pl.DataAccess.Idempotency.{
  TryInsertProcessingInput, MarkCompletedInput, MarkFailedInput, find_by_scope_and_key,
  try_insert_processing, reactivate_failed, takeover_expired_processing,
}
use payment_orchestration_pl.DataAccess.Idempotency as Data
use payment_orchestration_pl.Exec.{M, Statement, pure, throw, ◌>>=◌, lift, gets, random_uuid, await}
use payment_orchestration_pl.Idempotency.Canonical.{canonicalize}

-- The configuration, with what the platform provides: `digest` is the hexadecimal SHA-256 of
-- `JSON.stringify`, and `parse_json` is `JSON.parse`, `none` where it throws.
pub record IdempotencyService : Type 0 where
  pub processing_lease_ms : ℕ
  pub completed_ttl_ms : ℕ
  pub failed_ttl_ms : ℕ
  pub digest : Json → String
  pub parse_json : String → Option ResponseBody

pub record Started : Type 0 where
  pub record_id : String
  pub resource_id : String
  pub processing_token : String

pub data IdempotencyDecision : Type 0 where
  started : Started → IdempotencyDecision
  completed : (response_status_code : ℕ) (response_body : Option ResponseBody) → IdempotencyDecision

pub record StartInput : Type 0 where
  pub scope : String
  pub idempotency_key : String
  pub request_hash : String
  pub resource_type : String
  pub resource_id : String

abbrev conflict : String → String → Thrown
conflict code message = api_error (record {
  code = code;
  message = message;
  status_code = 409;
  details = none;
  is_operational = true;
})

abbrev broken : String → String → Thrown
broken code message = api_error (record {
  code = code;
  message = message;
  status_code = 500;
  details = none;
  is_operational = false;
})

abbrev pub reused_key : Thrown
reused_key =
    conflict "IDEMPOTENCY_KEY_REUSED_WITH_DIFFERENT_REQUEST"
      "Idempotency key was reused with a different request"

abbrev pub in_progress : Thrown
in_progress =
    conflict "IDEMPOTENCY_REQUEST_IN_PROGRESS"
      "An idempotent request with the same key is already in progress"

abbrev pub ownership_lost : Thrown
ownership_lost = conflict "IDEMPOTENCY_OWNERSHIP_LOST" "Idempotency ownership was lost"

abbrev pub state_not_found : Thrown
state_not_found = broken "IDEMPOTENCY_STATE_NOT_FOUND" "Idempotency state could not be resolved"

abbrev pub resource_missing : Thrown
resource_missing = broken "IDEMPOTENCY_RESOURCE_MISSING" "Idempotency resource reference is missing"

abbrev pub token_missing : Thrown
token_missing =
    broken "IDEMPOTENCY_PROCESSING_TOKEN_MISSING" "Idempotency processing token is missing"

-- A text is falsy when it is null or empty.
abbrev pub truthy : Option String → Option String
truthy none = none
truthy (some s) = if s == "" then none else some s

unfoldable pub build_started_decision : IdempotencyRecord → Result IdempotencyDecision
build_started_decision r = elim (truthy r.resource_id) [
  | none ↦ err resource_missing
  | some resource_id ↦
      if r.processing_token == ""
      then err token_missing
      else ok (
          started (record {
            record_id = r.id;
            resource_id = resource_id;
            processing_token = r.processing_token;
          }))
]

abbrev pub is_processing_expired : ℕ → IdempotencyRecord → Bool
is_processing_expired now r = elim r.processing_expires_at [ none ↦ false | some t ↦ leb t now ]

-- An acquired record starts the operation; `null` means that another request has it.
abbrev pub started_or_in_progress : Option IdempotencyRecord → M IdempotencyDecision
started_or_in_progress none = throw in_progress
started_or_in_progress (some r) = lift (build_started_decision r)

-- An update that reports no row was made without ownership.
abbrev pub or_lost : Option IdempotencyRecord → M IdempotencyRecord
or_lost none = throw ownership_lost
or_lost (some r) = pure r

module _ (s : IdempotencyService) where
  unfoldable pub build_request_hash : Json → String
  build_request_hash body = s.digest (canonicalize body)

  -- `buildExpiresAt`
  abbrev pub expires_at : ℕ → M ℕ
  expires_at ttl_ms = gets (λ w. w.now + ttl_ms)

  unfoldable pub normalize_response_body : Option ResponseBody → Option ResponseBody
  normalize_response_body none = none
  normalize_response_body (some (dto d)) = some (dto d)
  normalize_response_body (some (text t)) = elim (s.parse_json t) [
    | none ↦ some (text t)
    | some body ↦ some body
  ]

  unfoldable pub reactivate : IdempotencyRecord → String → M IdempotencyDecision
  reactivate r request_hash = do
    token ← random_uuid
    expires ← expires_at s.processing_lease_ms
    acquired ← await (reactivate_failed r.id request_hash expires token)
    started_or_in_progress acquired

  unfoldable pub take_over : IdempotencyRecord → String → M IdempotencyDecision
  take_over r request_hash = do
    token ← random_uuid
    expires ← expires_at s.processing_lease_ms
    acquired ← await (takeover_expired_processing r.id request_hash expires token)
    started_or_in_progress acquired

  -- The decision by the status of the record that was read.
  unfoldable pub decide_by_status :
      IdempotencyStatus → IdempotencyRecord → String → M IdempotencyDecision
  unfolding reactivate take_over normalize_response_body
  decide_by_status IdempotencyStatus.completed r request_hash =
      pure (completed (get_or r.response_status_code 0) (normalize_response_body r.response_body))
  decide_by_status IdempotencyStatus.failed r request_hash = reactivate r request_hash
  decide_by_status processing r request_hash = do
    expired ← gets (λ w. is_processing_expired w.now r)
    if expired then take_over r request_hash else throw in_progress

  unfoldable pub decide_from_existing : IdempotencyRecord → String → M IdempotencyDecision
  decide_from_existing r request_hash =
      if r.request_hash == request_hash
      then decide_by_status r.status r request_hash
      else throw reused_key

  -- What the second lookup, after the conflict, leads to.
  unfoldable pub resolved : StartInput → Option IdempotencyRecord → M IdempotencyDecision
  resolved input none = throw state_not_found
  resolved input (some r) = decide_from_existing r input.request_hash

  -- What follows the insertion: the inserted record, or the one that won the conflict.
  unfoldable pub start_or_resolve : StartInput → Option IdempotencyRecord → M IdempotencyDecision
  start_or_resolve input (some r) = lift (build_started_decision r)
  start_or_resolve input none = do
    again ← await (find_by_scope_and_key input.scope input.idempotency_key)
    resolved input again

  unfoldable pub start : StartInput → M IdempotencyDecision
  start input = do
    token ← random_uuid
    expires ← expires_at s.processing_lease_ms
    id ← random_uuid
    inserted ← await (
        try_insert_processing
          (record {
            scope = input.scope;
            idempotency_key = input.idempotency_key;
            request_hash = input.request_hash;
            resource_type = input.resource_type;
            resource_id = input.resource_id;
            processing_expires_at = expires;
            processing_token = token;
          })
          id)
    start_or_resolve input inserted

  -- What the first lookup leads to.
  unfoldable pub start_unless : StartInput → Option IdempotencyRecord → M IdempotencyDecision
  start_unless input none = start input
  start_unless input (some r) = decide_from_existing r input.request_hash

  unfoldable pub get_existing_or_start : StartInput → M IdempotencyDecision
  get_existing_or_start input = do
    existing ← await (find_by_scope_and_key input.scope input.idempotency_key)
    start_unless input existing

  -- `run` is `query` where the caller passes its transaction, else `await`.
  unfoldable pub mark_completed :
      (Statement (Option IdempotencyRecord) → M (Option IdempotencyRecord))
      → (record_id : String) (status_code : ℕ) (body : ResponseBody)
      → (resource_type resource_id token : String) → M IdempotencyRecord
  mark_completed run record_id status_code body resource_type resource_id token = do
    expires ← expires_at s.completed_ttl_ms
    updated ← run (
        Data.mark_completed (record {
          id = record_id;
          response_status_code = status_code;
          response_body = body;
          resource_type = resource_type;
          resource_id = resource_id;
          expires_at = expires;
          processing_token = token;
        }))
    or_lost updated

  unfoldable pub mark_failed :
      (Statement (Option IdempotencyRecord) → M (Option IdempotencyRecord))
      → (record_id token : String) → M IdempotencyRecord
  mark_failed run record_id token = do
    expires ← expires_at s.failed_ttl_ms
    updated ← run (
        Data.mark_failed
          (record { id = record_id; expires_at = expires; processing_token = token }))
    or_lost updated
