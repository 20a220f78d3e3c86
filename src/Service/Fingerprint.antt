-- ===== src/Service/Fingerprint.antt =====
-- The request fingerprint of src/healthassure_messaging/service.py. The digests are parameters: the
-- hash functions are the standard library's.
use Prim.Native.String.{◌++◌}
use healthassure_messaging.Base.{
  String, Bool, false, Option, none, some, List, [], ◌∷◌, if◌then◌else◌, any,
}
use healthassure_messaging.Enums.{component_type_value}
use healthassure_messaging.Errors.{Error, Result, ok, err}
use healthassure_messaging.Contracts.{
  TemplateParameter, TemplateComponent, Message, sensitive_parameter,
}
use healthassure_messaging.Json.{Value, Array, nil, cons, end, field, JsonCodec}

-- `hashlib.sha256(text).hexdigest()` and `hmac.new(key, text, hashlib.sha256).hexdigest()`.
pub record Digests : Type 0 where
  pub sha256 : String → String
  pub hmac_sha256 : String → String → String

-- Keys in the order in which `sort_keys=True` prints them.
unfoldable pub parameter_data : TemplateParameter → Value
parameter_data (TemplateParameter.image m) =
    Value.obj (field "media_id" (Value.str m) (field "type" (Value.str "image") end))
parameter_data (TemplateParameter.text t) = Value.str t
parameter_data (TemplateParameter.sensitive_text t) = Value.str t

unfoldable pub parameters_data : List TemplateParameter → Array
parameters_data [] = nil
parameters_data (p ∷ ps) = cons (parameter_data p) (parameters_data ps)

unfoldable pub components_data : List TemplateComponent → Array
components_data [] = nil
components_data (c ∷ cs) =
    cons
      (Value.obj (
        field "parameters" (Value.arr (parameters_data c.parameters))
          (field "type" (Value.str (component_type_value c.component_type)) end)))
      (components_data cs)

unfoldable pub message_fingerprint_data : Message → Value
message_fingerprint_data (Message.text body) =
    Value.obj (field "body" (Value.str body) (field "type" (Value.str "text") end))
message_fingerprint_data (Message.template t cs) = Value.obj (
    field "components" (Value.arr (components_data cs)) (
      field "template"
        (Value.obj
          (field "language_code" (Value.str t.language_code) (field "name" (Value.str t.name) end)))
        (field "type" (Value.str "template") end)))

unfoldable pub contains_sensitive_data : Message → Bool
contains_sensitive_data (Message.text body) = false
contains_sensitive_data (Message.template t cs) = any (λ c. any sensitive_parameter c.parameters) cs

abbrev pub sensitive_fingerprint_domain : String
sensitive_fingerprint_domain = "healthassure-messaging:sensitive-request:v1\0"

-- The document that is hashed.
unfoldable pub fingerprint_document : String → String → Message → String → String → Value
fingerprint_document recipient provider_key message operation_kind operation_key = Value.obj (
    field "message" (message_fingerprint_data message) (
      field "operation_key" (Value.str operation_key) (
        field "operation_kind" (Value.str operation_kind) (
          field "provider_key" (Value.str provider_key)
            (field "recipient" (Value.str recipient) end)))))

unfoldable pub request_fingerprint :
    Digests
    → JsonCodec
    → Option String
    → String
    → String
    → Message
    → String
    → String
    → Result String
request_fingerprint digests codec key recipient provider_key message operation_kind operation_key =
    let encoded =
      codec.dumps
        (fingerprint_document recipient provider_key message operation_kind operation_key) in
    if contains_sensitive_data message
    then (elim key [
      | none ↦ err Error.service_dependency
      | some k ↦ ok (digests.hmac_sha256 k (sensitive_fingerprint_domain ++ encoded))
    ])
    else ok (digests.sha256 encoded)
