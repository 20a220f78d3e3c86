-- ===== src/Contracts.antt =====
-- src/healthassure_messaging/contracts.py: requests, results and normalized errors. A dataclass is a
-- record; what its `__post_init__` rejects, beyond a wrong type, is the `check` of that record.
-- A number that `__post_init__` wants to be 0 or more is a natural number.
pub mod Checks
use Prim.Native.Char.{code}
use Prim.Native.String.{[], ◌∷◌}
use healthassure_messaging.Base.{
  ℕ, String, Bool, true, false, not, ◌&&◌, ◌||◌, Option, none, some, List, leb, nat_eq, ◌==◌,
  if◌then◌else◌, length, any, count_where, is_some,
}
use healthassure_messaging.Base.Int.{ℤ, pos, int_eq}
use healthassure_messaging.Base.Text.{size, every, is_digit}
use healthassure_messaging.Enums.{
  SendDisposition, ErrorCategory, TemplateComponentType, is_button, is_header,
}
use healthassure_messaging.Errors.{
  Error, Result, ok, err, ◌>>◌, raise_if, require_text, require_optional_text,
}
use healthassure_messaging.Phone.{validate_e164_number}

pub record NormalizedError : Type 0 where
  pub category : ErrorCategory
  pub safe_message : String
  pub retriable : Bool
  pub unknown_outcome : Bool
  pub provider_code : Option String
  pub http_status : Option ℕ
  pub provider_subcode : Option ℕ
  pub retry_after_seconds : Option ℕ

-- `value is not None and not low <= value <= high`.
abbrev pub out_of_range : Option ℕ → ℕ → ℕ → Bool
out_of_range none low high = false
out_of_range (some v) low high = not (leb low v && leb v high)

unfoldable pub check_error : NormalizedError → Result NormalizedError
check_error e = do
  require_text e.safe_message
  require_optional_text e.provider_code
  raise_if (out_of_range e.http_status 100 599) Error.value_error
  raise_if (out_of_range e.provider_subcode 0 2147483647) Error.value_error
  raise_if (out_of_range e.retry_after_seconds 0 86400) Error.value_error
  ok e

pub record TemplateReference : Type 0 where
  pub name : String
  pub language_code : String

unfoldable pub check_reference : TemplateReference → Result TemplateReference
check_reference r = do require_text r.name; require_text r.language_code; ok r

-- `TextParameter`, `SensitiveTextParameter` and `ImageParameter`.
pub data TemplateParameter : Type 0 where
  text sensitive_text image : String → TemplateParameter

-- `[1-9][0-9]{4,63}` on the whole text.
unfoldable pub media_id_ok : String → Bool
media_id_ok [] = false
media_id_ok (c ∷ s) =
    leb 49 (code c) && leb (code c) 57 && every is_digit s && leb 4 (size s) && leb (size s) 63

unfoldable pub check_parameter : TemplateParameter → Result TemplateParameter
check_parameter (TemplateParameter.text t) = do require_text t; ok (TemplateParameter.text t)
check_parameter (TemplateParameter.sensitive_text t) = do
  require_text t
  ok (TemplateParameter.sensitive_text t)
check_parameter (TemplateParameter.image m) =
    if media_id_ok m then ok (TemplateParameter.image m) else err Error.value_error

-- `isinstance(parameter, ImageParameter)`, `isinstance(parameter, SensitiveTextParameter)`.
abbrev pub image_parameter : TemplateParameter → Bool
image_parameter (TemplateParameter.image m) = true
image_parameter _ = false

abbrev pub sensitive_parameter : TemplateParameter → Bool
sensitive_parameter (TemplateParameter.sensitive_text t) = true
sensitive_parameter _ = false

pub record TemplateComponent : Type 0 where
  pub component_type : TemplateComponentType
  pub parameters : List TemplateParameter
  pub sub_type : Option String
  pub index : Option ℤ

-- `(sub_type, index) in {(None, None), ("url", 0)}`.
unfoldable pub button_metadata : Option String → Option ℤ → Bool
button_metadata none none = true
button_metadata (some s) (some i) = s == "url" && int_eq i (pos 0)
button_metadata _ _ = false

unfoldable pub check_component : TemplateComponent → Result TemplateComponent
check_component c = do
  raise_if
      (if is_button c.component_type
        then not (button_metadata c.sub_type c.index)
        else is_some c.sub_type || is_some c.index)
      Error.value_error
  raise_if
      (any image_parameter c.parameters
        && (not (is_header c.component_type)
            || not (nat_eq (length c.parameters) 1)
            || not (nat_eq (count_where image_parameter c.parameters) 1)))
      Error.value_error
  ok c

-- `TextMessage` and `TemplateMessage`.
pub data Message : Type 0 where
  text : String → Message
  template : TemplateReference → List TemplateComponent → Message

-- `TextMessage(body=body)`; a `TemplateMessage` rejects nothing but a wrong type.
unfoldable pub text_message : String → Result Message
text_message body = do require_text body; ok (Message.text body)

pub record MessageRequest : Type 0 where
  pub recipient : String
  pub message : Message
  pub correlation_id : String
  pub idempotency_key : String

unfoldable pub check_request : MessageRequest → Result MessageRequest
check_request r = do
  validate_e164_number r.recipient
  require_text r.correlation_id
  require_text r.idempotency_key
  ok r

pub record SendResult : Type 0 where
  pub provider_key : String
  pub disposition : SendDisposition
  pub correlation_id : String
  pub provider_message_id : Option String
  pub provider_status : Option String
  pub error : Option NormalizedError

unfoldable pub check_send_result : SendResult → Result SendResult
check_send_result r = do
  require_text r.provider_key
  require_text r.correlation_id
  require_optional_text r.provider_message_id
  require_optional_text r.provider_status
  ok r
