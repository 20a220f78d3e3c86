-- ===== src/Serialization/Restored.antt =====
-- Storing a request and reading it back (src/healthassure_messaging/serialization.py): the whole way,
-- with the hooks of `json.loads`.
use healthassure_messaging.Base.{String, ◌≡◌, refl, Option, none, some, List, [], ◌∷◌}
use healthassure_messaging.Base.Int.{ℤ}
use healthassure_messaging.Enums.{TemplateComponentType, is_button}
use healthassure_messaging.Errors.{ok}
use healthassure_messaging.Contracts.{
  TemplateParameter, TemplateComponent, Message, MessageRequest, check_request,
}
use healthassure_messaging.Json.{JsonCodec, Loaded, keys}
use healthassure_messaging.Serialization.{
  parameter_to_data, parameters_to_data, optional_str, optional_num, component_to_data,
  components_to_data, message_to_data, envelope, serialize_request,
}
use healthassure_messaging.Serialization.Reading.{
  apply_hooks, apply_hooks_items, deserialize_request,
}
use healthassure_messaging.Serialization.RoundTrip.{
  StorableMessage, component, parse_envelope_round_trip,
}

parameter_hooks :
    (p : TemplateParameter) → apply_hooks (parameter_to_data p) ≡ ok (parameter_to_data p)
unfolding apply_hooks parameter_to_data keys
parameter_hooks (TemplateParameter.text s) = refl
parameter_hooks (TemplateParameter.image s) = refl
parameter_hooks (TemplateParameter.sensitive_text s) = refl

parameters_hooks :
    (ps : List TemplateParameter)
    → apply_hooks_items (parameters_to_data ps) ≡ ok (parameters_to_data ps)
unfolding apply_hooks parameters_to_data
parameters_hooks [] = refl
parameters_hooks (p ∷ ps) = rw (parameter_hooks p, parameters_hooks ps) refl

optional_str_hooks : (o : Option String) → apply_hooks (optional_str o) ≡ ok (optional_str o)
unfolding apply_hooks optional_str
optional_str_hooks none = refl
optional_str_hooks (some s) = refl

optional_num_hooks : (o : Option ℤ) → apply_hooks (optional_num o) ≡ ok (optional_num o)
unfolding apply_hooks optional_num
optional_num_hooks none = refl
optional_num_hooks (some s) = refl

component_hooks :
    (t : TemplateComponentType) (sub_type : Option String) (index : Option ℤ)
    (ps : List TemplateParameter)
    → apply_hooks (component_to_data (component t sub_type index ps))
      ≡ ok (component_to_data (component t sub_type index ps))
unfolding apply_hooks component_to_data keys is_button
component_hooks TemplateComponentType.header sub_type index ps = rw (parameters_hooks ps) refl
component_hooks TemplateComponentType.body sub_type index ps = rw (parameters_hooks ps) refl
component_hooks TemplateComponentType.button sub_type index ps =
    rw (parameters_hooks ps, optional_str_hooks sub_type, optional_num_hooks index) refl

components_hooks :
    (cs : List TemplateComponent)
    → apply_hooks_items (components_to_data cs) ≡ ok (components_to_data cs)
unfolding apply_hooks components_to_data
components_hooks [] = refl
components_hooks (c ∷ cs) =
    rw (component_hooks c.component_type c.sub_type c.index c.parameters, components_hooks cs) refl

message_hooks : (m : Message) → apply_hooks (message_to_data m) ≡ ok (message_to_data m)
unfolding apply_hooks message_to_data keys
message_hooks (Message.text body) = refl
message_hooks (Message.template t cs) = rw (components_hooks cs) refl

envelope_hooks : (r : MessageRequest) → apply_hooks (envelope r) ≡ ok (envelope r)
unfolding apply_hooks envelope keys
envelope_hooks r = rw (message_hooks r.message) refl

-- A request that its constructors accept, that holds no sensitive text and whose buttons have their
-- metadata is read back from what it is stored as, where the JSON library reads back the document
-- that it wrote.
pub deserialize-serialize :
    (codec : JsonCodec) (r : MessageRequest)
    → codec.loads (codec.dumps (envelope r)) ≡ Loaded.document (envelope r)
    → check_request r ≡ ok r
    → StorableMessage r.message
    → deserialize_request codec (serialize_request codec r) ≡ ok r
unfolding deserialize_request serialize_request
deserialize-serialize codec r faithful valid storable =
    rw (faithful, deserialize_request)
      (rw (envelope_hooks r) (parse_envelope_round_trip r valid storable))
