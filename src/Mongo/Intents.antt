-- ===== src/Mongo/Intents.antt =====
-- Stored intents of src/healthassure_messaging/persistence/mongo.py, with their attempts.
pub mod RoundTrip
pub mod Closed
pub mod Requests
mod Attempts
pub mod Claimed
pub mod Completed
pub mod Keys
pub mod Settled
pub mod Recovered
pub mod Recovery
pub mod Repository
use healthassure_messaging.Base.{
  ℕ, suc, String, Bool, true, false, not, ◌&&◌, Option, none, some, is_some, nat_eq, if◌then◌else◌,
}
use healthassure_messaging.Enums.{IntentState, state_value, state_of, disposition_of, is_pending}
use healthassure_messaging.Errors.{Error, Result, ok, err, ◌>>=◌, ◌>>◌, raise_if}
use healthassure_messaging.ServiceContracts.{DispatchResult, MessageIntent, check_intent}
use healthassure_messaging.Json.{Value, Array, Object, nil, cons, end, field, get}
use healthassure_messaging.Mongo.Documents.{
  refused, record_call, as_document, doc_text, doc_optional_text, doc_int, doc_optional_int,
  list_value, enum_of, validate_schema, array_length, nat, mongo_record_schema_version,
}
use healthassure_messaging.Mongo.Results.{error_from_document, result_from_document}

-- `_record_call(partial(SendDisposition, disposition))` where there is one.
unfoldable pub check_disposition : Option String → Result (Unit {0})
check_disposition none = ok tt
check_disposition (some v) = record_call (do enum_of (disposition_of v); ok tt)

-- One round of the loop of `_validate_attempts`.
unfoldable pub validate_attempt : ℕ → Value → Result (Unit {0})
unfolding check_disposition
validate_attempt index raw_attempt = do
  attempt ← as_document raw_attempt
  n ← doc_int attempt "attempt_number" 1
  raise_if (not (nat_eq n index)) Error.mongo_record
  doc_int attempt "started_at_epoch" 0
  doc_optional_int attempt "completed_at_epoch"
  doc_text attempt "state"
  disposition ← doc_optional_text attempt "disposition"
  check_disposition disposition
  doc_optional_text attempt "provider_message_id"
  doc_optional_text attempt "provider_status"
  error_from_document (get "error" attempt)
  ok tt

unfoldable pub validate_each : ℕ → Array → Result (Unit {0})
unfolding validate_attempt
validate_each index nil = ok tt
validate_each index (cons x xs) = do validate_attempt index x; validate_each (suc index) xs

unfoldable pub validate_attempts : Object → Result (Unit {0})
unfolding validate_each
validate_attempts document = do
  attempts ← list_value Error.mongo_record (get "attempts" document)
  attempt_count ← doc_int document "attempt_count" 0
  raise_if (not (nat_eq (array_length attempts) attempt_count)) Error.mongo_record
  validate_each 1 attempts

-- `None if result_value is None else _result_from_document(result_value)`.
unfoldable pub stored_result : Option Value → Result (Option DispatchResult)
stored_result none = ok none
stored_result (some Value.null) = ok none
stored_result (some v) = do r ← result_from_document v; ok (some r)

unfoldable pub build_intent : Object → Result MessageIntent
unfolding stored_result
build_intent document = do
  s ← doc_text document "state"
  state ← enum_of (state_of s)
  result ← stored_result (get "result" document)
  intent_id ← doc_text document "intent_id"
  source_flow ← doc_text document "source_flow"
  idempotency_key ← doc_text document "idempotency_key"
  actor_id ← doc_text document "actor_id"
  provider_key ← doc_text document "provider_key"
  correlation_id ← doc_text document "correlation_id"
  request_fingerprint ← doc_text document "request_fingerprint"
  serialized_request ← doc_text document "serialized_request"
  check_intent (record {
    intent_id = intent_id;
    source_flow = source_flow;
    idempotency_key = idempotency_key;
    actor_id = actor_id;
    provider_key = provider_key;
    correlation_id = correlation_id;
    request_fingerprint = request_fingerprint;
    serialized_request = serialized_request;
    state = state;
    result = result;
  })

unfoldable pub intent_from_document : Value → Result MessageIntent
unfolding build_intent validate_attempts
intent_from_document v = do
  document ← as_document v
  validate_schema document
  validate_attempts document
  record_call (build_intent document)

-- The document of a pending intent without a result.
unfoldable pub pending_document : MessageIntent → ℕ → Object
pending_document i now = field "record_schema_version" (nat mongo_record_schema_version) (
    field "intent_id" (Value.str i.intent_id) (
      field "source_flow" (Value.str i.source_flow) (
        field "idempotency_key" (Value.str i.idempotency_key) (
          field "actor_id" (Value.str i.actor_id) (
            field "provider_key" (Value.str i.provider_key) (
              field "correlation_id" (Value.str i.correlation_id) (
                field "request_fingerprint" (Value.str i.request_fingerprint) (
                  field "serialized_request" (Value.str i.serialized_request) (
                    field "state" (Value.str (state_value IntentState.pending)) (
                      field "result" Value.null (
                        field "created_at_epoch" (nat now) (
                          field "updated_at_epoch" (nat now) (
                            field "dispatch_started_at_epoch" Value.null (
                              field "completed_at_epoch" Value.null (
                                field "attempt_count" (nat 0)
                                  (field "attempts" (Value.arr nil) end))))))))))))))))

unfoldable pub intent_to_document : MessageIntent → ℕ → Result Object
unfolding pending_document
intent_to_document i now = do
  raise_if (not (is_pending i.state && not (is_some i.result))) Error.value_error
  ok (pending_document i now)
