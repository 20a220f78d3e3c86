-- ===== src/Serialization.antt =====
-- src/healthassure_messaging/serialization.py: the stored form of a request.
pub mod Reading
pub mod RoundTrip
pub mod Restored
pub mod Redaction
use healthassure_messaging.Base.{
  ℕ, String, Bool, true, false, not, ◌&&◌, ◌||◌, Option, none, some, List, [], ◌∷◌, ◌==◌, nat_eq,
  leb, if◌then◌else◌,
}
use healthassure_messaging.Base.Int.{ℤ, pos, int_eq}
use healthassure_messaging.Enums.{TemplateComponentType, component_type_value, is_button}
use healthassure_messaging.Contracts.{
  TemplateParameter, TemplateComponent, TemplateReference, Message, MessageRequest,
}
use healthassure_messaging.Json.{Value, Array, Object, nil, cons, end, field, JsonCodec}

abbrev pub request_schema_version : ℕ
request_schema_version = 3

abbrev pub legacy_request_schema_version : ℕ
legacy_request_schema_version = 1

abbrev pub image_request_schema_version : ℕ
image_request_schema_version = 2

-- Every object is written with its keys in the order in which `sort_keys=True` prints them.
pub parameter_to_data : TemplateParameter → Value
parameter_to_data (TemplateParameter.image m) =
    Value.obj (field "media_id" (Value.str m) (field "type" (Value.str "image") end))
parameter_to_data (TemplateParameter.sensitive_text t) =
    Value.obj (field "redacted" (Value.bool true) (field "type" (Value.str "sensitive_text") end))
parameter_to_data (TemplateParameter.text t) =
    Value.obj (field "text" (Value.str t) (field "type" (Value.str "text") end))

pub parameters_to_data : List TemplateParameter → Array
parameters_to_data [] = nil
parameters_to_data (p ∷ ps) = cons (parameter_to_data p) (parameters_to_data ps)

pub optional_str : Option String → Value
optional_str none = Value.null
optional_str (some s) = Value.str s

pub optional_num : Option ℤ → Value
optional_num none = Value.null
optional_num (some n) = Value.num n

pub component_to_data : TemplateComponent → Value
component_to_data c =
    let parameters = Value.arr (parameters_to_data c.parameters) in
    let kind = Value.str (component_type_value c.component_type) in
    Value.obj (
      if is_button c.component_type
      then (field "index" (optional_num c.index) (
          field "parameters" parameters
            (field "sub_type" (optional_str c.sub_type) (field "type" kind end))))
      else field "parameters" parameters (field "type" kind end))

pub components_to_data : List TemplateComponent → Array
components_to_data [] = nil
components_to_data (c ∷ cs) = cons (component_to_data c) (components_to_data cs)

pub message_to_data : Message → Value
message_to_data (Message.text body) =
    Value.obj (field "body" (Value.str body) (field "type" (Value.str "text") end))
message_to_data (Message.template t cs) = Value.obj (
    field "components" (Value.arr (components_to_data cs)) (
      field "template"
        (Value.obj
          (field "language_code" (Value.str t.language_code) (field "name" (Value.str t.name) end)))
        (field "type" (Value.str "template") end)))

-- The document that `serialize_request` prints.
pub envelope : MessageRequest → Value
envelope r = Value.obj (
    field "request"
      (Value.obj (
        field "correlation_id" (Value.str r.correlation_id) (
          field "idempotency_key" (Value.str r.idempotency_key) (
            field "message" (message_to_data r.message)
              (field "recipient" (Value.str r.recipient) end)))))
      (field "schema_version" (Value.num (pos request_schema_version)) end))

pub serialize_request : JsonCodec → MessageRequest → String
serialize_request codec r = codec.dumps (envelope r)
