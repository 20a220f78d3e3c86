-- ===== src/Examples/Requests.antt =====
-- Runs of src/healthassure_messaging/serialization.py.
use healthassure_messaging.Base.{String, ◌≡◌, refl, false, none, some, [], ◌∷◌}
use healthassure_messaging.Base.Int.{pos}
use healthassure_messaging.Base.Text.{is_blank, is_space}
use healthassure_messaging.Enums.{TemplateComponentType, is_button, is_header}
use healthassure_messaging.Errors.{ok, require_text}
use healthassure_messaging.Phone.{
  validate_e164_number, is_e164_number, e164, national_ok, indian_mobile,
}
use healthassure_messaging.Contracts.{
  TemplateParameter, TemplateComponent, TemplateReference, Message, MessageRequest, check_parameter,
  check_component, check_reference, check_request, button_metadata,
}
use healthassure_messaging.Json.{JsonCodec, Loaded}
use healthassure_messaging.Serialization.{envelope, serialize_request}
use healthassure_messaging.Serialization.Reading.{deserialize_request}
use healthassure_messaging.Serialization.RoundTrip.{Plain, Storable, StorableMessage}
use healthassure_messaging.Serialization.Restored.{deserialize-serialize}
use healthassure_messaging.Serialization.Redaction.{redact_message, serialize-redact}
use healthassure_messaging.Examples.World.{request}

abbrev body : TemplateComponent
body = record {
  component_type = TemplateComponentType.body;
  parameters = TemplateParameter.text "Asha" ∷ [];
  sub_type = none;
  index = none;
}

abbrev button : TemplateComponent
button = record {
  component_type = TemplateComponentType.button;
  parameters = TemplateParameter.text "42" ∷ [];
  sub_type = some "url";
  index = some (pos 0);
}

abbrev reference : TemplateReference
reference = record { name = "welcome_v1"; language_code = "en" }

abbrev pub welcome : MessageRequest
welcome = record request { message = Message.template reference (body ∷ button ∷ []) }

abbrev codec : JsonCodec
codec = record { dumps = λ v. "{}"; loads = λ s. Loaded.document (envelope welcome) }

plain : (s : String) → is_blank s ≡ false → Plain (TemplateParameter.text s)
unfolding check_parameter require_text
plain s h = record { valid = rw h refl; disclosed = refl }

body-Storable : Storable body
unfolding check_component is_button is_header is_blank is_space
body-Storable = record {
  valid = refl;
  metadata = λ h. absurd (cc h);
  parameters = (plain "Asha" refl, tt);
}

button-Storable : Storable button
unfolding check_component is_button is_header button_metadata is_blank is_space
button-Storable = record { valid = refl; metadata = λ h. refl; parameters = (plain "42" refl, tt) }

welcome-Storable : StorableMessage welcome.message
unfolding check_reference require_text is_blank is_space
welcome-Storable = StorableMessage.template refl (body-Storable, (button-Storable, tt))

welcome_valid : check_request welcome ≡ ok welcome
unfolding check_request require_text is_blank is_space validate_e164_number is_e164_number e164
    national_ok indian_mobile
welcome_valid = refl

deserialize-serialize_example :
    deserialize_request codec (serialize_request codec welcome) ≡ ok welcome
deserialize-serialize_example =
    deserialize-serialize codec welcome refl welcome_valid welcome-Storable

abbrev secret : MessageRequest
secret = record request {
  message =
      Message.template reference
        (record body { parameters = TemplateParameter.sensitive_text "4711" ∷ [] } ∷ []);
}

serialize-redact_example :
    serialize_request codec (record secret { message = redact_message secret.message })
    ≡ serialize_request codec secret
serialize-redact_example = serialize-redact codec secret
