-- ===== src/Service/Send.antt =====
-- The entry points of src/healthassure_messaging/service.py: `send_template`,
-- `send_text` and the `_send` that they share.
pub mod Once
use healthassure_messaging.Base.{
  String, Bool, true, false, not, ◌&&◌, ◌||◌, Option, none, some, ◌==◌, if◌then◌else◌,
}
use healthassure_messaging.Enums.{IntentState}
use healthassure_messaging.Errors.{Error, Result, ok, err, raise_if, require_text}
use healthassure_messaging.Contracts.{Message, MessageRequest, check_request, text_message}
use healthassure_messaging.ServiceContracts.{
  TemplateAlias, DispatchResult, MessageIntent, IntentCreationResult, check_intent,
}
use healthassure_messaging.Phone.{normalize_phone_number, normalize_national_number}
use healthassure_messaging.Provider.{Reply}
use healthassure_messaging.Serialization.{serialize_request}
use healthassure_messaging.Templates.{Parameters, build_template_message}
use healthassure_messaging.Service.{MessagingService, get_intent, create_intent, continue_intent}
use healthassure_messaging.Service.Monad.{Action, pure, lift, ask, ◌>>=◌, ◌>>◌}
use healthassure_messaging.Service.Fingerprint.{contains_sensitive_data, request_fingerprint}

-- What `_send` takes.
pub record Call : Type 0 where
  pub recipient : String
  pub message : Message
  pub provider_key : String
  pub operation_kind : String
  pub operation_key : String
  pub source_flow : String
  pub idempotency_key : String
  pub actor_id : String
  pub text_purpose_key : Option String

-- What callers of both entry points give.
pub record Scope : Type 0 where
  pub source_flow : String
  pub idempotency_key : String
  pub actor_id : String

-- `_require_text(factory(), …)`.
unfoldable pub identifier_of : Reply String → Result String
identifier_of (Reply.value v) = require_text v
identifier_of Reply.invalid = err Error.value_error
identifier_of (Reply.raised e) = err e

-- The reply of the catalog; a value that is no alias fails in `build_template_message`.
unfoldable pub alias_of : Reply (Option TemplateAlias) → Result TemplateAlias
alias_of (Reply.value (some a)) = ok a
alias_of (Reply.value none) = err Error.unknown_template
alias_of Reply.invalid = err Error.type_error
alias_of (Reply.raised e) = err Error.service_dependency

-- The request is handed on only for a message that cannot be restored.
unfoldable pub transient_request :
    IntentCreationResult → Message → MessageRequest → Option MessageRequest
transient_request creation message request =
    if creation.created && contains_sensitive_data message then some request else none

module _ {E : Type 0} (s : MessagingService E) where
  unfoldable pub request_of : Call → String → Result MessageRequest
  request_of c correlation_id = check_request (record {
    recipient = c.recipient;
    message = c.message;
    correlation_id = correlation_id;
    idempotency_key = c.idempotency_key;
  })

  unfoldable pub intent_of : Call → String → String → String → MessageRequest → Result MessageIntent
  intent_of c intent_id correlation_id fingerprint request = check_intent (record {
    intent_id = intent_id;
    source_flow = c.source_flow;
    idempotency_key = c.idempotency_key;
    actor_id = c.actor_id;
    provider_key = c.provider_key;
    correlation_id = correlation_id;
    request_fingerprint = fingerprint;
    serialized_request = serialize_request s.codec request;
    state = IntentState.pending;
    result = none;
  })

  -- The part of `_send` for a scope with no intent.
  pub send_new : Call → String → Action E DispatchResult
  send_new c fingerprint = do
    correlation_reply ← ask s.ports.new_correlation_id
    correlation_id ← lift (identifier_of correlation_reply)
    id_reply ← ask s.ports.new_intent_id
    intent_id ← lift (identifier_of id_reply)
    request ← lift (request_of c correlation_id)
    intent ← lift (intent_of c intent_id correlation_id fingerprint request)
    creation ← create_intent s intent
    continue_intent s creation.intent fingerprint c.recipient c.text_purpose_key
        (transient_request creation c.message request)

  -- The two branches on the lookup.
  pub send_found : Call → String → Option MessageIntent → Action E DispatchResult
  send_found c fingerprint (some existing) =
      continue_intent s existing fingerprint c.recipient c.text_purpose_key none
  send_found c fingerprint none = send_new c fingerprint

  pub send : Call → Action E DispatchResult
  send c = do
    lift (require_text c.source_flow)
    lift (require_text c.idempotency_key)
    lift (require_text c.actor_id)
    fingerprint ← lift (
        request_fingerprint s.digests s.codec s.sensitive_fingerprint_key c.recipient c.provider_key
          c.message c.operation_kind c.operation_key)
    existing ← get_intent s c.source_flow c.idempotency_key
    send_found c fingerprint existing

  pub send_template : String → String → Parameters → Scope → Action E DispatchResult
  send_template recipient template_key parameters scope = do
    normalized ← lift (normalize_phone_number recipient s.default_region normalize_national_number)
    lift (require_text template_key)
    reply ← ask (s.ports.find_template template_key)
    alias ← lift (alias_of reply)
    message ← lift (build_template_message alias parameters)
    send (record {
      recipient = normalized;
      message = message;
      provider_key = alias.provider_key;
      operation_kind = "template";
      operation_key = template_key;
      source_flow = scope.source_flow;
      idempotency_key = scope.idempotency_key;
      actor_id = scope.actor_id;
      text_purpose_key = none;
    })

  pub send_text : String → String → String → Scope → Action E DispatchResult
  send_text recipient body purpose_key scope = do
    normalized ← lift (normalize_phone_number recipient s.default_region normalize_national_number)
    lift (require_text purpose_key)
    message ← lift (text_message body)
    send (record {
      recipient = normalized;
      message = message;
      provider_key = s.text_provider_key;
      operation_kind = "text";
      operation_key = purpose_key;
      source_flow = scope.source_flow;
      idempotency_key = scope.idempotency_key;
      actor_id = scope.actor_id;
      text_purpose_key = some purpose_key;
    })
