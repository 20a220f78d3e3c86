-- ===== src/Mongo/Intents/Requests.antt =====
-- The queries and the updates of `MongoIntentRepository` in
-- src/healthassure_messaging/persistence/mongo.py, and its tests on what it reads.
use Prim.Native.String.{◌++◌}
use healthassure_messaging.Base.Int.{ℤ, pos}
use healthassure_messaging.Base.{
  leb, ℕ, ◌+◌, ◌-◌, String, Bool, true, false, not, ◌&&◌, ◌||◌, Option, none, some, nat_eq, ◌==◌,
  if◌then◌else◌,
}
use healthassure_messaging.Base.Decimal.{decimal}
use healthassure_messaging.Enums.{
  SendDisposition, ErrorCategory, IntentState, state_value, terminal_state,
}
use healthassure_messaging.Errors.{Error, Result, ok, err, ◌>>=◌, ◌>>◌, raise_if}
use healthassure_messaging.Contracts.{check_error}
use healthassure_messaging.ServiceContracts.{
  DispatchResult, MessageIntent, IntentCreationResult, check_dispatch_result,
}
use healthassure_messaging.Json.{Value, Object, nil, end, field, get}
use healthassure_messaging.Mongo.Documents.{
  array_at, as_document, doc_int, list_value, array_length, nat, mongo_record_schema_version,
}
use healthassure_messaging.Mongo.Results.{result_to_document, attempt_result_fields}
use healthassure_messaging.Mongo.Intents.{intent_from_document}

-- `_MAX_RECOVERY_LIMIT`.
abbrev pub max_recovery_limit : ℕ
max_recovery_limit = 1000

abbrev pub text_field : String → String → Object
text_field key v = field key (Value.str v) end

-- The scope of an intent, and the other queries and updates.
unfoldable pub scope_query : String → String → Object
scope_query source_flow idempotency_key =
    field "source_flow" (Value.str source_flow) (text_field "idempotency_key" idempotency_key)

unfoldable pub claim_query : String → ℕ → Object
claim_query intent_id attempt_count = field "intent_id" (Value.str intent_id) (
    field "record_schema_version" (nat mongo_record_schema_version) (
      field "state" (Value.str (state_value IntentState.pending))
        (field "attempt_count" (nat attempt_count) end)))

unfoldable pub claim_attempt : ℕ → ℕ → Object
claim_attempt attempt_count now = field "attempt_number" (nat (attempt_count + 1)) (
    field "started_at_epoch" (nat now) (
      field "completed_at_epoch" Value.null (
        field "state" (Value.str (state_value IntentState.dispatching)) (
          field "disposition" Value.null (
            field "provider_message_id" Value.null
              (field "provider_status" Value.null (field "error" Value.null end)))))))

unfoldable pub claim_update : ℕ → ℕ → Object
unfolding claim_attempt
claim_update attempt_count now =
    field "$set"
      (Value.obj (
        field "state" (Value.str (state_value IntentState.dispatching))
          (field "updated_at_epoch" (nat now) (field "dispatch_started_at_epoch" (nat now) end))))
      (field "$inc" (Value.obj (field "attempt_count" (nat 1) end)) (
        field "$push"
          (Value.obj (field "attempts" (Value.obj (claim_attempt attempt_count now)) end)) end))

-- `attempts.<index>.<key>`.
unfoldable pub attempt_key : ℕ → String → String
attempt_key index key = "attempts." ++ decimal index ++ "." ++ key

unfoldable pub complete_query : String → IntentState → Object → Object
complete_query intent_id expected_state rest = field "intent_id" (Value.str intent_id) (
    field "record_schema_version" (nat mongo_record_schema_version)
      (field "state" (Value.str (state_value expected_state)) rest))

unfoldable pub complete_set : DispatchResult → ℕ → Object → Object
complete_set result now rest =
    field "$set"
      (Value.obj (
        field "state" (Value.str (state_value (terminal_state result.disposition))) (
          field "result" (result_to_document result)
            (field "updated_at_epoch" (nat now) (field "completed_at_epoch" (nat now) rest)))))
      end

-- The query and the update for an attempt in progress.
unfoldable pub attempt_query : String → ℕ → Object
unfolding complete_query
attempt_query intent_id index = complete_query intent_id IntentState.dispatching (
    field "attempt_count" (nat (index + 1))
      (field (attempt_key index "completed_at_epoch") Value.null end))

unfoldable pub attempt_set : DispatchResult → ℕ → ℕ → Object
unfolding complete_set
attempt_set result now index = complete_set result now (
    attempt_result_fields (attempt_key index) result
      (field (attempt_key index "completed_at_epoch") (nat now) end))

unfoldable pub is_null : Option Value → Bool
is_null none = true
is_null (some Value.null) = true
is_null _ = false

-- `None if document is None else _intent_from_document(document)`.
unfoldable pub optional_intent : Option Value → Result (Option MessageIntent)
optional_intent none = ok none
optional_intent (some v) = do i ← intent_from_document v; ok (some i)

unfoldable pub creation : Value → Bool → Result IntentCreationResult
creation stored created = do
  i ← intent_from_document stored
  ok (record { intent = i; created = created })

-- The tests of `complete` on an attempt in progress, and its index.
unfoldable pub active_index : Object → Result ℕ
unfolding is_null array_at
active_index current = do
  attempt_count ← doc_int current "attempt_count" 1
  attempts ← list_value Error.mongo_record (get "attempts" current)
  raise_if (not (nat_eq (array_length attempts) attempt_count)) Error.mongo_record
  raw ← array_at attempts (attempt_count - 1)
  attempt ← as_document raw
  raise_if (not (is_null (get "completed_at_epoch" attempt))) Error.mongo_record
  ok (attempt_count - 1)

-- `attempts != []`.
unfoldable pub is_empty_list : Option Value → Bool
is_empty_list (some (Value.arr nil)) = true
is_empty_list _ = false

-- The test of `complete` on an intent without attempts.
unfoldable pub check_unattempted : Object → Result (Unit {0})
unfolding is_empty_list
check_unattempted current = do
  attempt_count ← doc_int current "attempt_count" 0
  raise_if (not (nat_eq attempt_count 0) || not (is_empty_list (get "attempts" current)))
      Error.mongo_record
  ok tt

-- Whether the stored intent is the one of the call and of the result.
unfoldable pub same_identity : String → MessageIntent → DispatchResult → Bool
same_identity intent_id stored result =
    stored.intent_id == intent_id
    && result.intent_id == stored.intent_id
    && result.provider_key == stored.provider_key
    && result.correlation_id == stored.correlation_id

-- The query and the update of a completion; `none` for a state that cannot be completed.
unfoldable pub completion :
    String → IntentState → DispatchResult → ℕ → Object → Result (Option (Object × Object))
unfolding active_index attempt_query attempt_set check_unattempted complete_query complete_set
completion intent_id IntentState.dispatching result now current = do
  index ← active_index current
  ok (some (attempt_query intent_id index, attempt_set result now index))
completion intent_id IntentState.pending result now current = do
  check_unattempted current
  ok (some (complete_query intent_id IntentState.pending end, complete_set result now end))
completion intent_id _ result now current = ok none

-- The query for intents whose dispatch began before a time.
unfoldable pub stale_query : ℕ → Object
stale_query stale_before =
    field "state" (Value.str (state_value IntentState.dispatching))
      (field "dispatch_started_at_epoch" (Value.obj (field "$lt" (nat stale_before) end)) end)

-- The test of `recover_stale_dispatching` on its limit.
unfoldable pub require_limit : ℤ → Result ℕ
require_limit (pos n) = if leb 1 n && leb n max_recovery_limit then ok n else err Error.value_error
require_limit _ = err Error.value_error

-- The result that the recovery gives an intent.
unfoldable pub recovered_result : MessageIntent → Result DispatchResult
recovered_result intent = do
  error ← check_error (record {
    category = ErrorCategory.unknown;
    safe_message = "Dispatch outcome is unknown after stale recovery";
    retriable = false;
    unknown_outcome = true;
    provider_code = none;
    http_status = none;
    provider_subcode = none;
    retry_after_seconds = none;
  })
  check_dispatch_result (record {
    intent_id = intent.intent_id;
    provider_key = intent.provider_key;
    disposition = SendDisposition.unknown;
    correlation_id = intent.correlation_id;
    provider_message_id = none;
    provider_status = some "stale_dispatch_recovered";
    error = some error;
    idempotent_replay = false;
  })
