-- ===== src/Mongo/Results.antt =====
-- Stored errors and dispatch results of src/healthassure_messaging/persistence/mongo.py.
pub mod RoundTrip
use healthassure_messaging.Base.{ℕ, String, Bool, Option, none, some}
use healthassure_messaging.Enums.{disposition_value, disposition_of, category_value, category_of}
use healthassure_messaging.Errors.{Error, Result, ok, err, ◌>>=◌}
use healthassure_messaging.Contracts.{NormalizedError, check_error}
use healthassure_messaging.ServiceContracts.{DispatchResult, check_dispatch_result}
use healthassure_messaging.Json.{Value, Object, end, field, get}
use healthassure_messaging.Mongo.Documents.{
  record_call, as_document, doc_text, doc_optional_text, doc_optional_int, doc_bool, enum_of,
  optional_text_field, optional_int_field,
}

unfoldable pub error_to_document : Option NormalizedError → Value
error_to_document none = Value.null
error_to_document (some e) = Value.obj (
    field "category" (Value.str (category_value e.category)) (
      field "safe_message" (Value.str e.safe_message) (
        field "retriable" (Value.bool e.retriable) (
          field "unknown_outcome" (Value.bool e.unknown_outcome) (
            field "provider_code" (optional_text_field e.provider_code) (
              field "http_status" (optional_int_field e.http_status) (
                field "provider_subcode" (optional_int_field e.provider_subcode) (
                  field "retry_after_seconds" (optional_int_field e.retry_after_seconds) end))))))))

unfoldable pub build_error : Object → Result NormalizedError
build_error document = do
  c ← doc_text document "category"
  category ← enum_of (category_of c)
  safe_message ← doc_text document "safe_message"
  retriable ← doc_bool document "retriable"
  unknown_outcome ← doc_bool document "unknown_outcome"
  provider_code ← doc_optional_text document "provider_code"
  http_status ← doc_optional_int document "http_status"
  provider_subcode ← doc_optional_int document "provider_subcode"
  retry_after_seconds ← doc_optional_int document "retry_after_seconds"
  check_error (record {
    category = category;
    safe_message = safe_message;
    retriable = retriable;
    unknown_outcome = unknown_outcome;
    provider_code = provider_code;
    http_status = http_status;
    provider_subcode = provider_subcode;
    retry_after_seconds = retry_after_seconds;
  })

-- The argument is `document.get("error")`.
unfoldable pub error_from_document : Option Value → Result (Option NormalizedError)
unfolding build_error
error_from_document none = ok none
error_from_document (some Value.null) = ok none
error_from_document (some v) = do
  document ← as_document v
  e ← record_call (build_error document)
  ok (some e)

unfoldable pub result_to_document : DispatchResult → Value
unfolding error_to_document
result_to_document r = Value.obj (
    field "intent_id" (Value.str r.intent_id) (
      field "provider_key" (Value.str r.provider_key) (
        field "disposition" (Value.str (disposition_value r.disposition)) (
          field "correlation_id" (Value.str r.correlation_id) (
            field "provider_message_id" (optional_text_field r.provider_message_id) (
              field "provider_status" (optional_text_field r.provider_status) (
                field "error" (error_to_document r.error)
                  (field "idempotent_replay" (Value.bool r.idempotent_replay) end))))))))

unfoldable pub build_result : Object → Result DispatchResult
build_result document = do
  intent_id ← doc_text document "intent_id"
  provider_key ← doc_text document "provider_key"
  d ← doc_text document "disposition"
  disposition ← enum_of (disposition_of d)
  correlation_id ← doc_text document "correlation_id"
  provider_message_id ← doc_optional_text document "provider_message_id"
  provider_status ← doc_optional_text document "provider_status"
  error ← error_from_document (get "error" document)
  idempotent_replay ← doc_bool document "idempotent_replay"
  check_dispatch_result (record {
    intent_id = intent_id;
    provider_key = provider_key;
    disposition = disposition;
    correlation_id = correlation_id;
    provider_message_id = provider_message_id;
    provider_status = provider_status;
    error = error;
    idempotent_replay = idempotent_replay;
  })

unfoldable pub result_from_document : Value → Result DispatchResult
unfolding build_result
result_from_document v = do document ← as_document v; record_call (build_result document)

-- The fields of `_attempt_result_fields` with a key that `prefix` makes of theirs, before the rest.
unfoldable pub attempt_result_fields : (String → String) → DispatchResult → Object → Object
unfolding error_to_document
attempt_result_fields prefix r rest =
    field (prefix "state") (Value.str (disposition_value r.disposition)) (
      field (prefix "disposition") (Value.str (disposition_value r.disposition)) (
        field (prefix "provider_message_id") (optional_text_field r.provider_message_id) (
          field (prefix "provider_status") (optional_text_field r.provider_status)
            (field (prefix "error") (error_to_document r.error) rest))))
