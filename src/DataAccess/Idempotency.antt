-- ===== src/DataAccess/Idempotency.antt =====
-- services/payment-service/src/data-access/idempotency/idempotency-data-access.ts, over the table
-- of the migrations 002, 003 and 005.
use payment_orchestration_pl.Prelude.{
  ℕ, String, Bool, true, false, ◌&&◌, Option, none, some, List, [], ◌∷◌, ◌++◌, ◌==◌, ltb,
  if◌then◌else◌, is_some,
}
use payment_orchestration_pl.Errors.{other_error, ok, err}
use payment_orchestration_pl.Tables.{first_where, update_returning}
use payment_orchestration_pl.DataAccess.Rows.{
  IdempotencyStatus, processing, completed, IdempotencyRecord, ResponseBody, Db,
}
use payment_orchestration_pl.Exec.{Statement}

pub record TryInsertProcessingInput : Type 0 where
  pub scope : String
  pub idempotency_key : String
  pub request_hash : String
  pub resource_type : String
  pub resource_id : String
  pub processing_expires_at : ℕ
  pub processing_token : String

pub record MarkCompletedInput : Type 0 where
  pub id : String
  pub response_status_code : ℕ
  pub response_body : ResponseBody
  pub resource_type : String
  pub resource_id : String
  pub expires_at : ℕ
  pub processing_token : String

pub record MarkFailedInput : Type 0 where
  pub id : String
  pub expires_at : ℕ
  pub processing_token : String

abbrev pub is_processing : IdempotencyStatus → Bool
is_processing processing = true
is_processing _ = false

abbrev pub is_completed : IdempotencyStatus → Bool
is_completed completed = true
is_completed _ = false

abbrev pub is_failed : IdempotencyStatus → Bool
is_failed IdempotencyStatus.failed = true
is_failed _ = false

abbrev pub has_key : String → String → IdempotencyRecord → Bool
has_key scope key r = r.scope == scope && r.idempotency_key == key

abbrev pub has_record_id : String → IdempotencyRecord → Bool
has_record_id id r = r.id == id

-- The record that a scope and a key read.
abbrev pub find_record : String → String → List IdempotencyRecord → Option IdempotencyRecord
find_record scope key = first_where (has_key scope key)

unfoldable pub find_by_scope_and_key : String → String → Statement (Option IdempotencyRecord)
find_by_scope_and_key scope key now db = (ok (find_record scope key db.idempotency_keys), db)

abbrev pub processing_record : TryInsertProcessingInput → String → ℕ → IdempotencyRecord
processing_record input id now = record {
  id = id;
  scope = input.scope;
  idempotency_key = input.idempotency_key;
  request_hash = input.request_hash;
  status = processing;
  resource_type = some input.resource_type;
  resource_id = some input.resource_id;
  response_status_code = none;
  response_body = none;
  created_at = now;
  updated_at = now;
  expires_at = none;
  processing_expires_at = some input.processing_expires_at;
  processing_token = input.processing_token;
}

-- `id` is the UUID that the source draws in the method. The conflict on the scope and the key is
-- ignored; one on the primary key is an error.
unfoldable pub try_insert_processing :
    TryInsertProcessingInput → String → Statement (Option IdempotencyRecord)
try_insert_processing input id now db =
    if is_some (find_record input.scope input.idempotency_key db.idempotency_keys)
    then (ok none, db)
    else if is_some (first_where (has_record_id id) db.idempotency_keys)
    then (err (other_error "idempotency_keys_pkey"), db)
    else (
      ok (some (processing_record input id now)),
      record db { idempotency_keys = db.idempotency_keys ++ processing_record input id now ∷ [] },
    )

abbrev pub is_reactivatable : String → String → IdempotencyRecord → Bool
is_reactivatable id hash r = r.id == id && r.request_hash == hash && is_failed r.status

abbrev pub with_lease : IdempotencyStatus → ℕ → String → ℕ → IdempotencyRecord → IdempotencyRecord
with_lease status expires token now r = record r {
  status = status;
  processing_expires_at = some expires;
  processing_token = token;
  updated_at = now;
}

-- The update of an idempotency record, as a statement.
abbrev pub update_records :
    (IdempotencyRecord → Bool)
    → (IdempotencyRecord → IdempotencyRecord)
    → Db
    → Option IdempotencyRecord × Db
update_records p f db =
    let (updated, rows) = update_returning p f db.idempotency_keys in
    (updated, record db { idempotency_keys = rows })

unfoldable pub reactivate_failed :
    (id hash : String) (expires : ℕ) (token : String) → Statement (Option IdempotencyRecord)
reactivate_failed id hash expires token now db =
    let (updated, db') =
      update_records (is_reactivatable id hash) (with_lease processing expires token now) db in
    (ok updated, db')

-- `processing_expires_at < now()`, which NULL does not satisfy.
abbrev pub has_expired : ℕ → Option ℕ → Bool
has_expired now none = false
has_expired now (some t) = ltb t now

abbrev pub is_takeable : String → String → ℕ → IdempotencyRecord → Bool
is_takeable id hash now r =
    r.id == id
    && r.request_hash == hash
    && is_processing r.status
    && has_expired now r.processing_expires_at

-- The status stays PROCESSING.
unfoldable pub takeover_expired_processing :
    (id hash : String) (expires : ℕ) (token : String) → Statement (Option IdempotencyRecord)
takeover_expired_processing id hash expires token now db =
    let (updated, db') =
      update_records (is_takeable id hash now) (with_lease processing expires token now) db in
    (ok updated, db')

-- The ownership test of both final updates.
abbrev pub is_owned : String → String → IdempotencyRecord → Bool
is_owned id token r = r.id == id && is_processing r.status && r.processing_token == token

abbrev pub with_response : MarkCompletedInput → ℕ → IdempotencyRecord → IdempotencyRecord
with_response input now r = record r {
  status = completed;
  response_status_code = some input.response_status_code;
  response_body = some input.response_body;
  resource_type = some input.resource_type;
  resource_id = some input.resource_id;
  expires_at = some input.expires_at;
  updated_at = now;
}

unfoldable pub mark_completed : MarkCompletedInput → Statement (Option IdempotencyRecord)
mark_completed input now db =
    let (updated, db') =
      update_records (is_owned input.id input.processing_token) (with_response input now) db in
    (ok updated, db')

abbrev pub with_failure : MarkFailedInput → ℕ → IdempotencyRecord → IdempotencyRecord
with_failure input now r = record r {
  status = IdempotencyStatus.failed;
  expires_at = some input.expires_at;
  updated_at = now;
}

unfoldable pub mark_failed : MarkFailedInput → Statement (Option IdempotencyRecord)
mark_failed input now db =
    let (updated, db') =
      update_records (is_owned input.id input.processing_token) (with_failure input now) db in
    (ok updated, db')
