-- ===== src/Mongo/Intents/RoundTrip.antt =====
-- New intents written and read by src/healthassure_messaging/persistence/mongo.py.
use healthassure_messaging.Base.{ℕ, ◌≡◌, refl, sym, ap, ◌∙◌, false, none, arith}
use healthassure_messaging.Base.Text.{is_blank}
use healthassure_messaging.Enums.{IntentState, state_value, state_of}
use healthassure_messaging.Errors.{ok, ◌>>=◌, require_text}
use healthassure_messaging.ServiceContracts.{MessageIntent, check_intent}
use healthassure_messaging.Json.{Value, get}
use healthassure_messaging.Mongo.Documents.{
  record_call, as_document, doc_text, doc_int, enum_of, validate_schema, list_value, array_length,
  int_value,
}
use healthassure_messaging.Mongo.Intents.{
  validate_each, validate_attempts, stored_result, build_intent, intent_from_document,
  pending_document, intent_to_document,
}

-- The texts of an intent that its constructor accepts.
pub record Texts (i : MessageIntent) : Type 0 where
  pub id : is_blank i.intent_id ≡ false
  pub flow : is_blank i.source_flow ≡ false
  pub key : is_blank i.idempotency_key ≡ false
  pub actor : is_blank i.actor_id ≡ false
  pub provider : is_blank i.provider_key ≡ false
  pub correlation : is_blank i.correlation_id ≡ false
  pub fingerprint : is_blank i.request_fingerprint ≡ false
  pub request : is_blank i.serialized_request ≡ false

pub intent-Texts : (i : MessageIntent) → check_intent i ≡ ok i → Texts i
unfolding check_intent require_text
intent-Texts i h = record {
  id = ground arith;
  flow = ground arith;
  key = ground arith;
  actor = ground arith;
  provider = ground arith;
  correlation = ground arith;
  fingerprint = ground arith;
  request = ground arith;
}

pending_shape :
    (i : MessageIntent)
    → i.state ≡ IntentState.pending
    → i.result ≡ none
    → record i { state = IntentState.pending; result = none } ≡ i
pending_shape i s r =
    ap (λ x. record i { state = x; result = none }) (sym s)
    ∙ ap (λ x. record i { result = x }) (sym r)

built :
    (i : MessageIntent) (now : ℕ)
    → check_intent i ≡ ok i
    → i.state ≡ IntentState.pending
    → i.result ≡ none
    → build_intent (pending_document i now) ≡ ok i
unfolding build_intent pending_document get doc_text enum_of state_of state_value stored_result
    is_blank
built i now v s r =
    let t = intent-Texts i v in
    rw (t.id, t.flow, t.key, t.actor, t.provider, t.correlation, t.fingerprint, t.request)
      (ap check_intent (pending_shape i s r) ∙ v)

pub pending_document_read :
    (i : MessageIntent) (now : ℕ)
    → check_intent i ≡ ok i
    → i.state ≡ IntentState.pending
    → i.result ≡ none
    → intent_from_document (Value.obj (pending_document i now)) ≡ ok i
unfolding intent_from_document as_document validate_schema validate_attempts get list_value doc_int
    int_value array_length validate_each pending_document record_call
pending_document_read i now v s r = rw (built i now v s r) refl

intent_document :
    (i : MessageIntent) (now : ℕ)
    → i.state ≡ IntentState.pending
    → i.result ≡ none
    → intent_to_document i now ≡ ok (pending_document i now)
unfolding intent_to_document
intent_document i now s r = ground arith

-- A pending intent without a result, which its constructor accepts, is read back from the document that
-- is stored of it, whatever the time.
pub intent_from_document-intent_to_document :
    (i : MessageIntent) (now : ℕ)
    → check_intent i ≡ ok i
    → i.state ≡ IntentState.pending
    → i.result ≡ none
    → (intent_to_document i now >>= λ d. intent_from_document (Value.obj d)) ≡ ok i
intent_from_document-intent_to_document i now v s r =
    rw (intent_document i now s r) (pending_document_read i now v s r)
