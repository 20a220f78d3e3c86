-- ===== src/Serialization/Redaction.antt =====
-- What src/healthassure_messaging/serialization.py stores of sensitive texts.
use healthassure_messaging.Base.{◌≡◌, refl, List, [], ◌∷◌}
use healthassure_messaging.Contracts.{TemplateParameter, TemplateComponent, Message, MessageRequest}
use healthassure_messaging.Json.{JsonCodec}
use healthassure_messaging.Serialization.{
  parameter_to_data, parameters_to_data, component_to_data, components_to_data, message_to_data,
  envelope, serialize_request,
}

-- The text of a sensitive parameter, blanked out.
abbrev pub redact : TemplateParameter → TemplateParameter
redact (TemplateParameter.sensitive_text s) = TemplateParameter.sensitive_text ""
redact (TemplateParameter.text s) = TemplateParameter.text s
redact (TemplateParameter.image m) = TemplateParameter.image m

abbrev pub redact_parameters : List TemplateParameter → List TemplateParameter
redact_parameters [] = []
redact_parameters (p ∷ ps) = redact p ∷ redact_parameters ps

abbrev pub redact_components : List TemplateComponent → List TemplateComponent
redact_components [] = []
redact_components (c ∷ cs) =
    record c { parameters = redact_parameters c.parameters } ∷ redact_components cs

abbrev pub redact_message : Message → Message
redact_message (Message.text body) = Message.text body
redact_message (Message.template t cs) = Message.template t (redact_components cs)

redact_parameter_lem : (p : TemplateParameter) → parameter_to_data (redact p) ≡ parameter_to_data p
unfolding parameter_to_data
redact_parameter_lem (TemplateParameter.text s) = refl
redact_parameter_lem (TemplateParameter.image s) = refl
redact_parameter_lem (TemplateParameter.sensitive_text s) = refl

redact_parameters_lem :
    (ps : List TemplateParameter)
    → parameters_to_data (redact_parameters ps) ≡ parameters_to_data ps
unfolding parameters_to_data
redact_parameters_lem [] = refl
redact_parameters_lem (p ∷ ps) = rw (redact_parameter_lem p, redact_parameters_lem ps) refl

redact_components_lem :
    (cs : List TemplateComponent)
    → components_to_data (redact_components cs) ≡ components_to_data cs
unfolding components_to_data component_to_data
redact_components_lem [] = refl
redact_components_lem (c ∷ cs) =
    rw (redact_parameters_lem c.parameters, redact_components_lem cs) refl

redact_message_lem : (m : Message) → message_to_data (redact_message m) ≡ message_to_data m
unfolding message_to_data
redact_message_lem (Message.text body) = refl
redact_message_lem (Message.template t cs) = rw (redact_components_lem cs) refl

-- What is stored of a request does not depend on its sensitive texts: it is what is stored of the
-- request with these blanked out.
pub serialize-redact :
    (codec : JsonCodec) (r : MessageRequest)
    → serialize_request codec (record r { message = redact_message r.message })
      ≡ serialize_request codec r
unfolding serialize_request envelope
serialize-redact codec r = rw (serialize_request, envelope, redact_message_lem r.message) refl
