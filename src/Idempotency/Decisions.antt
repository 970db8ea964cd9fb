-- ===== src/Idempotency/Decisions.antt =====
-- What `getExistingOrStart` decides, by the record that its first lookup reads.
use payment_orchestration_pl.Prelude.{
  ◌+◌, ◌≡◌, ◌≢◌, ◌∙◌, false, none, some, [], ◌∷◌, ◌++◌, arith, eq_iff, get_or,
}
use payment_orchestration_pl.Errors.{ok, err}
use payment_orchestration_pl.Tables.{first_where}
use payment_orchestration_pl.DataAccess.Rows.{processing, completed, IdempotencyRecord}
use payment_orchestration_pl.DataAccess.Idempotency.{
  find_record, find_by_scope_and_key, has_record_id, try_insert_processing, processing_record,
  TryInsertProcessingInput,
}
use payment_orchestration_pl.Exec.{World, ◌>>=◌, head_fault, healthy, interleave}
use payment_orchestration_pl.Idempotency.Service.{
  IdempotencyService, IdempotencyDecision, started, StartInput, reused_key, in_progress,
  normalize_response_body, is_processing_expired, decide_by_status, decide_from_existing,
  start_unless, get_existing_or_start, start, start_or_resolve, build_started_decision,
}

-- The first lookup, where the database answers.
pub lookup_first :
    (s : IdempotencyService) (input : StartInput) (w : World)
    → head_fault w.ticks ≡ healthy
    → get_existing_or_start s input w
      ≡ start_unless s input
          (find_record input.scope input.idempotency_key (interleave w).db.idempotency_keys)
          (interleave w)
unfolding ◌>>=◌ get_existing_or_start find_by_scope_and_key
lookup_first s input w h = ground arith

module _ (s : IdempotencyService) (input : StartInput) (w : World) (r : IdempotencyRecord)
    (answers : head_fault w.ticks ≡ healthy)
    (found : find_record input.scope input.idempotency_key (interleave w).db.idempotency_keys
      ≡ some r) where
  -- A completed operation is replayed from its record.
  pub decide_completed :
      r.request_hash ≡ input.request_hash
      → r.status ≡ completed
      → get_existing_or_start s input w ≡ (
        ok (
            IdempotencyDecision.completed
              (get_or r.response_status_code 0)
              (normalize_response_body s r.response_body)),
        interleave w,
      )
  unfolding ◌>>=◌ start_unless decide_from_existing decide_by_status
  decide_completed same h =
      lookup_first s input w answers
      ∙ rw found (ground (arith, eq_iff r.request_hash input.request_hash))

  -- Another request under the same key is refused.
  pub decide_reused :
      r.request_hash ≢ input.request_hash
      → get_existing_or_start s input w ≡ (err reused_key, interleave w)
  unfolding ◌>>=◌ start_unless decide_from_existing
  decide_reused differs =
      lookup_first s input w answers
      ∙ rw found (ground (arith, eq_iff r.request_hash input.request_hash))

  -- A request whose lease runs is not started twice.
  pub decide_in_progress :
      r.request_hash ≡ input.request_hash
      → r.status ≡ processing
      → is_processing_expired (interleave w).now r ≡ false
      → get_existing_or_start s input w ≡ (err in_progress, interleave w)
  unfolding ◌>>=◌ start_unless decide_from_existing decide_by_status
  decide_in_progress same h leased =
      lookup_first s input w answers
      ∙ rw found (ground (arith, eq_iff r.request_hash input.request_hash))

-- The claim that a request makes in a world.
abbrev pub claim : IdempotencyService → StartInput → World → TryInsertProcessingInput
claim s input w = record {
  scope = input.scope;
  idempotency_key = input.idempotency_key;
  request_hash = input.request_hash;
  resource_type = input.resource_type;
  resource_id = input.resource_id;
  processing_expires_at = w.now + s.processing_lease_ms;
  processing_token = w.uuid w.drawn;
}

-- Where nothing interferes, a key that no record has is claimed, with the reserved resource id and
-- the first UUID drawn as its token, if these two are not empty and the id drawn for the record is
-- fresh.
pub start_fresh :
    (s : IdempotencyService) (input : StartInput) (w : World)
    → w.ticks ≡ []
    → find_record input.scope input.idempotency_key w.db.idempotency_keys ≡ none
    → first_where (has_record_id (w.uuid (w.drawn + 1))) w.db.idempotency_keys ≡ none
    → input.resource_id ≢ ""
    → w.uuid w.drawn ≢ ""
    → get_existing_or_start s input w ≡ (
      ok (
          started (record {
            record_id = w.uuid (w.drawn + 1);
            resource_id = input.resource_id;
            processing_token = w.uuid w.drawn;
          })),
      record w {
        db = record w.db {
          idempotency_keys =
              w.db.idempotency_keys
              ++ processing_record (claim s input w) (w.uuid (w.drawn + 1)) w.db_now ∷ [];
        };
        now = w.now;
        drawn = w.drawn + 1 + 1;
      },
    )
unfolding ◌>>=◌ get_existing_or_start find_by_scope_and_key start_unless start try_insert_processing
    start_or_resolve build_started_decision
start_fresh s input w quiet fresh unused named token =
    ground (arith, eq_iff input.resource_id "", eq_iff (w.uuid w.drawn) "")
