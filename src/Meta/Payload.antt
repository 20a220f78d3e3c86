-- ===== src/Meta/Payload.antt =====
-- `MetaCloudProvider._build_payload` of src/healthassure_messaging/providers/meta.py.
use Prim.Native.Char.{code}
use Prim.Native.String.{String}
use healthassure_messaging.Base.{
  suc, Bool, false, not, ◌&&◌, Option, none, some, List, [], ◌∷◌, nat_eq, ◌==◌, if◌then◌else◌, any,
}
use healthassure_messaging.Base.Int.{ℤ, pos, negsuc, int_eq}
use healthassure_messaging.Base.Decimal.{decimal}
use healthassure_messaging.Enums.{component_type_value, is_button}
use healthassure_messaging.Contracts.{TemplateParameter, TemplateComponent, Message, MessageRequest}
use healthassure_messaging.Json.{Value, Array, Object, nil, cons, end, field}

-- `removeprefix("+")`.
unfoldable pub without_plus : String → String
without_plus String.[] = String.[]
without_plus (String.◌∷◌ c s) = if nat_eq (code c) b'+' then s else String.◌∷◌ c s

unfoldable pub parameter_payload : TemplateParameter → Value
parameter_payload (TemplateParameter.image m) = Value.obj (
    field "type" (Value.str "image") (field "image" (Value.obj (field "id" (Value.str m) end)) end))
parameter_payload (TemplateParameter.text t) =
    Value.obj (field "type" (Value.str "text") (field "text" (Value.str t) end))
parameter_payload (TemplateParameter.sensitive_text t) =
    Value.obj (field "type" (Value.str "text") (field "text" (Value.str t) end))

unfoldable pub parameters_payload : List TemplateParameter → Array
parameters_payload [] = nil
parameters_payload (p ∷ ps) = cons (parameter_payload p) (parameters_payload ps)

-- `str(index)`.
unfoldable pub index_text : Option ℤ → String
index_text none = "None"
index_text (some (pos n)) = decimal n
index_text (some (negsuc n)) = String.◌∷◌ "-" (decimal (suc n))

unfoldable pub sub_type_value : Option String → Value
sub_type_value none = Value.null
sub_type_value (some s) = Value.str s

-- The values of `TemplateComponentType` are lower-case already.
unfoldable pub component_payload : TemplateComponent → Value
component_payload c =
    let parameters = field "parameters" (Value.arr (parameters_payload c.parameters)) end in
    Value.obj (
      field "type" (Value.str (component_type_value c.component_type)) (
        if is_button c.component_type
        then (field "sub_type" (sub_type_value c.sub_type)
            (field "index" (Value.str (index_text c.index)) parameters))
        else parameters))

unfoldable pub components_payload : List TemplateComponent → Array
components_payload [] = nil
components_payload (c ∷ cs) = cons (component_payload c) (components_payload cs)

-- `sub_type != "url" or index != 0`, negated.
unfoldable pub url_button : TemplateComponent → Bool
url_button c = elim c.sub_type [
  | none ↦ false
  | some s ↦ elim c.index [ none ↦ false | some i ↦ s == "url" && int_eq i (pos 0) ]
]

unfoldable pub unsupported_component : TemplateComponent → Bool
unsupported_component c = is_button c.component_type && not (url_button c)

-- The key "components" is there only where there are components.
unfoldable pub components_field : List TemplateComponent → Object
components_field [] = end
components_field (c ∷ cs) = field "components" (Value.arr (components_payload (c ∷ cs))) end

unfoldable pub common : MessageRequest → Object → Value
common request rest = Value.obj (
    field "messaging_product" (Value.str "whatsapp") (
      field "recipient_type" (Value.str "individual")
        (field "to" (Value.str (without_plus request.recipient)) rest)))

unfoldable pub message_payload : MessageRequest → Message → Option Value
message_payload request (Message.text body) = some (
    common request (
      field "type" (Value.str "text") (
        field "text"
          (Value.obj (field "body" (Value.str body) (field "preview_url" (Value.bool false) end)))
          end)))
message_payload request (Message.template t cs) =
    if any unsupported_component cs
    then none
    else some (
        common request (
          field "type" (Value.str "template") (
            field "template"
              (Value.obj (
                field "name" (Value.str t.name) (
                  field "language" (Value.obj (field "code" (Value.str t.language_code) end))
                    (components_field cs))))
              end)))

unfoldable pub build_payload : MessageRequest → Option Value
build_payload request = message_payload request request.message
