-- ===== src/Mongo/Results/RoundTrip.antt =====
-- Dispatch results written and read by src/healthassure_messaging/persistence/mongo.py.
use healthassure_messaging.Base.{ℕ, String, ◌≡◌, refl, false, Option, none, some, arith}
use healthassure_messaging.Base.Text.{is_blank}
use healthassure_messaging.Enums.RoundTrip.{
  disposition_round_trip, category_round_trip, disposition_visible, category_visible,
}
use healthassure_messaging.Errors.{ok, require_text, require_optional_text}
use healthassure_messaging.Contracts.{NormalizedError, check_error}
use healthassure_messaging.ServiceContracts.{DispatchResult, check_dispatch_result}
use healthassure_messaging.Json.{get}
use healthassure_messaging.Mongo.Documents.{
  record_call, as_document, doc_text, doc_optional_text, doc_optional_int, doc_bool, enum_of,
  optional_text_field, optional_int_field, optional_text_value, optional_int_value,
}
use healthassure_messaging.Mongo.Results.{
  error_to_document, build_error, error_from_document, result_to_document, build_result,
  result_from_document,
}

-- An optional text that is not blank.
abbrev pub Given : Option String → Type 0
Given none = Unit
Given (some s) = is_blank s ≡ false

abbrev pub ErrorValid : Option NormalizedError → Type 0
ErrorValid none = Unit
ErrorValid (some e) = check_error e ≡ ok e

pub text_given : (s : String) → require_text s ≡ ok s → is_blank s ≡ false
unfolding require_text
text_given s h = ground arith

pub optional-Given : (o : Option String) → require_optional_text o ≡ ok tt → Given o
unfolding require_optional_text require_text
optional-Given none h = tt
optional-Given (some s) h = ground arith

pub optional_text_read :
    (o : Option String) → Given o → optional_text_value (some (optional_text_field o)) ≡ ok o
unfolding optional_text_value
optional_text_read none g = refl
optional_text_read (some s) g = rw g refl

pub optional_int_read : (o : Option ℕ) → optional_int_value (some (optional_int_field o)) ≡ ok o
unfolding optional_int_value
optional_int_read none = refl
optional_int_read (some n) = refl

error_texts :
    (e : NormalizedError)
    → check_error e ≡ ok e
    → (is_blank e.safe_message ≡ false) × (require_optional_text e.provider_code ≡ ok tt)
unfolding check_error require_text
error_texts e h = (ground arith, ground arith)

pub error_round_trip :
    (o : Option NormalizedError)
    → ErrorValid o
    → error_from_document (some (error_to_document o)) ≡ ok o
unfolding error_from_document error_to_document build_error as_document doc_text doc_bool
    doc_optional_text doc_optional_int get enum_of record_call
error_round_trip none v = refl
error_round_trip (some e) v =
    let texts = error_texts e v in
    rw
      (
        category_visible e.category,
        category_round_trip e.category,
        texts.0,
        optional_text_read e.provider_code (optional-Given e.provider_code texts.1),
        optional_int_read e.http_status,
        optional_int_read e.provider_subcode,
        optional_int_read e.retry_after_seconds,
        v,
      )
      refl

pub result_texts :
    (r : DispatchResult)
    → check_dispatch_result r ≡ ok r
    → (is_blank r.intent_id ≡ false)
      × (is_blank r.provider_key ≡ false)
      × (is_blank r.correlation_id ≡ false)
      × (require_optional_text r.provider_message_id ≡ ok tt)
      × (require_optional_text r.provider_status ≡ ok tt)
unfolding check_dispatch_result require_text
result_texts r h = (ground arith, ground arith, ground arith, ground arith, ground arith)

-- A result that its constructor accepts, with an error that its own accepts, is read back from the
-- document that is stored of it.
pub result_from_document-result_to_document :
    (r : DispatchResult)
    → check_dispatch_result r ≡ ok r
    → ErrorValid r.error
    → result_from_document (result_to_document r) ≡ ok r
unfolding result_from_document result_to_document build_result as_document doc_text doc_bool
    doc_optional_text get enum_of record_call
result_from_document-result_to_document r v e =
    let (id, provider, correlation, message, status) = result_texts r v in
    rw
      (
        id,
        provider,
        disposition_visible r.disposition,
        disposition_round_trip r.disposition,
        correlation,
        optional_text_read r.provider_message_id (optional-Given r.provider_message_id message),
        optional_text_read r.provider_status (optional-Given r.provider_status status),
        error_round_trip r.error e,
        v,
      )
      refl
