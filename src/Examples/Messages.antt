-- ===== src/Examples/Messages.antt =====
-- Runs of src/healthassure_messaging/templates.py, the policies of testing.py and the fake provider.
use healthassure_messaging.Base.{◌≡◌, refl, true, false, none, some, [], ◌∷◌}
use healthassure_messaging.Errors.{◌>>=◌}
use healthassure_messaging.Base.Text.{is_blank, is_space}
use healthassure_messaging.Enums.{SendDisposition, TemplateComponentType, is_button, is_header}
use healthassure_messaging.Errors.{Error, ok, err, require_text, require_optional_text}
use healthassure_messaging.Phone.{
  validate_e164_number, is_e164_number, e164, national_ok, indian_mobile,
}
use healthassure_messaging.Contracts.{
  TemplateParameter, Message, check_parameter, check_component, check_reference, check_send_result,
}
use healthassure_messaging.Provider.{FakeMessagingProvider, new_fake, fake_send, validate_key, keys}
use healthassure_messaging.Templates.{
  Supplied, Parameters, find_alias, add_aliases, new_catalog, get, supplied_ok, check_supplied,
  find_supplied, names, required_names, typed_parameter, provided_item, build_parameters,
  build_component, build_components, build_template_message,
}
use healthassure_messaging.Templates.Built.{Built, build_template_message-Built}
use healthassure_messaging.InMemory.{
  evaluate, validated_recipients, new_recipient_policy, new_session_policy, has_active_session,
  elem_pair,
}
use healthassure_messaging.Service.Setup.{new_service}
use healthassure_messaging.Examples.World.{alias, recipient, request, accepted, service, providers}

abbrev parameters : Parameters
parameters = ("name", Supplied.plain "Asha") ∷ []

abbrev welcome : Message
welcome =
    Message.template (record { name = "welcome_v1"; language_code = "en" })
      (record {
        component_type = TemplateComponentType.body;
        parameters = TemplateParameter.text "Asha" ∷ [];
        sub_type = none;
        index = none;
      }
        ∷ [])

built : build_template_message alias parameters ≡ ok welcome
unfolding supplied_ok check_supplied find_supplied names required_names typed_parameter
    provided_item build_parameters build_component build_components build_template_message
    check_parameter check_component check_reference require_text is_blank is_space is_button
    is_header
built = refl

build_template_message-Built_example : Built alias parameters welcome
build_template_message-Built_example = build_template_message-Built alias parameters welcome built

catalogued : new_catalog (alias ∷ []) ≡ ok (("welcome", alias) ∷ [])
unfolding new_catalog add_aliases find_alias
catalogued = refl

listed_twice : new_catalog (alias ∷ alias ∷ []) ≡ err Error.duplicate_template_alias
unfolding new_catalog add_aliases find_alias
listed_twice = refl

looked_up : get (("welcome", alias) ∷ []) "welcome" ≡ ok (some alias)
unfolding get find_alias is_blank is_space
looked_up = refl

consented :
    (do policy ← new_recipient_policy (recipient ∷ []) []; evaluate policy recipient)
    ≡ ok (record { consented = true; suppressed = false })
unfolding new_recipient_policy validated_recipients evaluate validate_e164_number is_e164_number
    e164 national_ok indian_mobile
consented = refl

in_session :
    (do
      policy ← new_session_policy ((recipient, "support") ∷ [])
      has_active_session policy recipient "support")
    ≡ ok true
unfolding new_session_policy has_active_session elem_pair require_text is_blank is_space
    validate_e164_number is_e164_number e164 national_ok indian_mobile
in_session = refl

abbrev fake_provider : FakeMessagingProvider
fake_provider = record {
  key = "fake";
  disposition = SendDisposition.accepted;
  provider_message_id = some "m-1";
  provider_status = none;
  error = none;
  received_requests = [];
}

faked : new_fake "fake" SendDisposition.accepted (some "m-1") none none ≡ ok fake_provider
unfolding new_fake validate_key is_blank is_space
faked = refl

recorded :
    fake_send request fake_provider
    ≡ (ok (accepted request), record fake_provider { received_requests = request ∷ [] })
unfolding fake_send check_send_result require_text require_optional_text is_blank is_space
recorded = refl

registered_keys : keys providers ≡ "fake" ∷ []
unfolding keys
registered_keys = refl

constructed : new_service service ≡ ok service
unfolding new_service require_text require_optional_text is_blank is_space
constructed = refl
