-- ===== src/ServiceContracts.antt =====
-- src/healthassure_messaging/service_contracts.py: template aliases, dispatch results and message
-- intents.
pub mod Checks
pub mod Equality
use healthassure_messaging.Base.{
  ℕ, String, Bool, true, false, not, ◌&&◌, ◌||◌, Option, none, some, List, [], ◌∷◌, nat_eq, ◌==◌,
  if◌then◌else◌, length, any, count_where, is_some, map,
}
use healthassure_messaging.Base.Int.{ℤ, pos, int_eq}
use healthassure_messaging.Enums.{
  SendDisposition, IntentState, TemplateComponentType, TemplateParameterType, is_button, is_header,
  is_body, is_image, is_sensitive, terminal_state, is_terminal, state_eq,
}
use healthassure_messaging.Errors.{
  Error, Result, ok, err, ◌>>=◌, ◌>>◌, raise_if, require_text, require_optional_text,
}
use healthassure_messaging.Contracts.{NormalizedError}

pub record TemplateComponentSpec : Type 0 where
  pub component_type : TemplateComponentType
  pub parameter_names : List String
  pub parameter_types : List TemplateParameterType
  pub sub_type : Option String
  pub index : Option ℤ

-- `self.sub_type != "url" or self.index != 0`, negated.
unfoldable pub url_at_zero : Option String → Option ℤ → Bool
url_at_zero (some s) (some i) = s == "url" && int_eq i (pos 0)
url_at_zero _ _ = false

-- `parameter_types or tuple(TEXT for _ in parameter_names)`.
unfoldable pub resolved_types :
    List TemplateParameterType → List String → List TemplateParameterType
resolved_types [] names = map (λ n. TemplateParameterType.text) names
resolved_types (t ∷ types) names = t ∷ types

-- `parameter_types != (SENSITIVE_TEXT,)`, negated.
unfoldable pub only_sensitive : List TemplateParameterType → Bool
only_sensitive (t ∷ []) = is_sensitive t
only_sensitive _ = false

unfoldable pub require_texts : List String → Result (Unit {0})
require_texts [] = ok tt
require_texts (n ∷ names) = do require_text n; require_texts names

-- The tests on the resolved parameter types.
unfoldable pub check_types : TemplateComponentType → List TemplateParameterType → Result (Unit {0})
check_types kind types = do
  raise_if
      (any is_image types
        && (not (is_header kind)
            || not (nat_eq (length types) 1)
            || not (nat_eq (count_where is_image types) 1)))
      Error.value_error
  raise_if
      (any is_sensitive types
        && (not (is_body kind || is_button kind)
            || not (nat_eq (length types) 1)
            || not (nat_eq (count_where is_sensitive types) 1)))
      Error.value_error
  raise_if (is_button kind && not (only_sensitive types)) Error.value_error

-- The value after `__post_init__`, which fills in the parameter types.
unfoldable pub check_component_spec : TemplateComponentSpec → Result TemplateComponentSpec
check_component_spec c = do
  raise_if
      (if is_button c.component_type
        then not (url_at_zero c.sub_type c.index)
        else is_some c.sub_type || is_some c.index)
      Error.value_error
  raise_if (nat_eq (length c.parameter_names) 0) Error.value_error
  require_texts c.parameter_names
  let types = resolved_types c.parameter_types c.parameter_names
  raise_if (not (nat_eq (length types) (length c.parameter_names))) Error.type_error
  check_types c.component_type types
  ok (record c { parameter_types = types })

pub record TemplateAlias : Type 0 where
  pub key : String
  pub provider_key : String
  pub template_name : String
  pub language_code : String
  pub components : List TemplateComponentSpec

unfoldable pub check_alias : TemplateAlias → Result TemplateAlias
check_alias a = do
  require_text a.key
  require_text a.provider_key
  require_text a.template_name
  require_text a.language_code
  ok a

pub record RecipientEligibility : Type 0 where
  pub consented : Bool
  pub suppressed : Bool

pub record DispatchResult : Type 0 where
  pub intent_id : String
  pub provider_key : String
  pub disposition : SendDisposition
  pub correlation_id : String
  pub provider_message_id : Option String
  pub provider_status : Option String
  pub error : Option NormalizedError
  pub idempotent_replay : Bool

unfoldable pub check_dispatch_result : DispatchResult → Result DispatchResult
check_dispatch_result r = do
  require_text r.intent_id
  require_text r.provider_key
  require_text r.correlation_id
  require_optional_text r.provider_message_id
  require_optional_text r.provider_status
  ok r

pub record MessageIntent : Type 0 where
  pub intent_id : String
  pub source_flow : String
  pub idempotency_key : String
  pub actor_id : String
  pub provider_key : String
  pub correlation_id : String
  pub request_fingerprint : String
  pub serialized_request : String
  pub state : IntentState
  pub result : Option DispatchResult

-- Whether the state and the result of an intent fit each other, with the identifiers.
unfoldable pub result_fits : MessageIntent → Option DispatchResult → Bool
result_fits i none = not (is_terminal i.state)
result_fits i (some r) =
    is_terminal i.state
    && r.intent_id == i.intent_id
    && r.provider_key == i.provider_key
    && r.correlation_id == i.correlation_id
    && state_eq i.state (terminal_state r.disposition)

unfoldable pub check_intent : MessageIntent → Result MessageIntent
check_intent i = do
  require_text i.intent_id
  require_text i.source_flow
  require_text i.idempotency_key
  require_text i.actor_id
  require_text i.provider_key
  require_text i.correlation_id
  require_text i.request_fingerprint
  require_text i.serialized_request
  raise_if (not (result_fits i i.result)) Error.value_error
  ok i

-- `replace(intent, state=state, result=result)`, and with the state alone.
unfoldable pub replace_result : MessageIntent → IntentState → DispatchResult → Result MessageIntent
replace_result i state r = check_intent (record i { state = state; result = some r })

unfoldable pub replace_state : MessageIntent → IntentState → Result MessageIntent
replace_state i state = check_intent (record i { state = state })

pub record IntentCreationResult : Type 0 where
  pub intent : MessageIntent
  pub created : Bool
