-- ===== src/Examples/Posts.antt =====
-- Runs of src/healthassure_messaging/providers/meta.py and of the constructors in
-- service_contracts.py.
use healthassure_messaging.Base.{ltb, leb, ℕ, ◌≡◌, refl, true, false, none, some, List, [], ◌∷◌}
use healthassure_messaging.Base.Int.{pos}
use healthassure_messaging.Base.Decimal.{
  decimal, decimal_from, digit, decimal_value, decimal_value_from,
}
use healthassure_messaging.Base.Text.{is_blank, is_space}
use healthassure_messaging.Enums.{
  SendDisposition, ErrorCategory, component_type_value, is_button, is_header, is_body,
}
use healthassure_messaging.Errors.{Error, ok, err, require_text, require_optional_text}
use healthassure_messaging.Contracts.{SendResult, check_error, check_send_result}
use healthassure_messaging.ServiceContracts.{
  check_alias, check_component_spec, check_types, require_texts, only_sensitive, resolved_types,
  url_at_zero,
}
use healthassure_messaging.Http.{HttpResponse, HttpOutcome, new_transport}
use healthassure_messaging.Json.{Loaded, Value, nil, cons, end, field, get}
use healthassure_messaging.Provider.{Reply}
use healthassure_messaging.Meta.{
  result, error_result, classify_rejection, parse_retry_after, code_of, object_of, get_in,
  error_object, decode_json_object, document_of, rejection_error, unverified, rejection_result,
  response_result, outcome_result, transport_reply, meta_send,
}
use healthassure_messaging.Meta.Config.{
  Numbers, MetaCloudConfig, check_config, graph_version_ok, after_major, phone_number_id_ok,
  validate_timeout, post_call,
}
use healthassure_messaging.Meta.Endpoint.{Endpoint, check_config-Endpoint}
use healthassure_messaging.Meta.Payload.{
  without_plus, parameter_payload, parameters_payload, index_text, sub_type_value,
  component_payload, components_payload, url_button, unsupported_component, components_field,
  common, message_payload, build_payload,
}
use healthassure_messaging.Examples.World.{alias, request}
use healthassure_messaging.Examples.Requests.{welcome}

-- The payload of a template with a button.
payload :
    build_payload welcome
    ≡ some (
        common request (
          field "type" (Value.str "template") (
            field "template"
              (Value.obj (
                field "name" (Value.str "welcome_v1") (
                  field "language" (Value.obj (field "code" (Value.str "en") end)) (
                    field "components"
                      (Value.arr (
                        cons
                          (Value.obj (
                            field "type" (Value.str "body") (
                              field "parameters"
                                (Value.arr (
                                  cons
                                    (Value.obj (
                                      field "type"
                                        (Value.str "text")
                                        (field "text" (Value.str "Asha") end)))
                                    nil))
                                end)))
                          (cons
                            (Value.obj (
                              field "type" (Value.str "button") (
                                field "sub_type" (Value.str "url") (
                                  field "index" (Value.str "0") (
                                    field "parameters"
                                      (Value.arr (
                                        cons
                                          (Value.obj (
                                            field "type"
                                              (Value.str "text")
                                              (field "text" (Value.str "42") end)))
                                          nil))
                                      end)))))
                            nil)))
                      end))))
              end)))
unfolding build_payload message_payload common without_plus components_field components_payload
    component_payload parameters_payload parameter_payload sub_type_value index_text url_button
    unsupported_component component_type_value is_button decimal decimal_from digit
payload = refl

-- A transport that reports the status 429 and counts its calls by the payloads.
abbrev limited : HttpResponse
limited = record { status_code = 429; body = []; retry_after = some "30"; body_too_large = false }

abbrev transport : Value → List Value → Reply HttpOutcome × List Value
transport v posted = (Reply.value (HttpOutcome.response limited), v ∷ posted)

abbrev decode : List ℕ → Loaded
decode body =
    Loaded.document
      (Value.obj (field "error" (Value.obj (field "code" (Value.num (pos 130429)) end)) end))

abbrev refused : SendResult
refused = record {
  provider_key = "meta";
  disposition = SendDisposition.rejected;
  correlation_id = "c-1";
  provider_message_id = none;
  provider_status = none;
  error = some (record {
    category = ErrorCategory.rate_limit;
    safe_message = "Meta rejected the message request.";
    retriable = true;
    unknown_outcome = false;
    provider_code = some "130429";
    http_status = some 429;
    provider_subcode = none;
    retry_after_seconds = some 30;
  });
}

posted : (meta_send decode transport request []).0 ≡ Reply.value refused
unfolding build_payload message_payload common without_plus meta_send transport_reply outcome_result
    response_result rejection_result unverified rejection_error classify_rejection parse_retry_after
    code_of object_of get_in get error_object document_of decode_json_object result error_result
    check_error check_send_result require_text require_optional_text is_blank is_space decimal
    decimal_from digit decimal_value decimal_value_from
posted = refl

checked_alias : check_alias alias ≡ ok alias
unfolding check_alias check_component_spec check_types require_texts only_sensitive resolved_types
    url_at_zero require_text is_blank is_space is_button is_header is_body
checked_alias = refl

limit_given : new_transport 0 ≡ err Error.value_error
unfolding new_transport
limit_given = refl

-- Timeouts in milliseconds.
abbrev milliseconds : Numbers ℕ
milliseconds = record {
  is_number = λ t. true;
  is_finite = λ t. true;
  is_positive = λ t. ltb 0 t;
  is_at_most_300 = λ t. leb t 300000;
}

abbrev config : MetaCloudConfig ℕ
config = record {
  graph_version = "v23.0";
  phone_number_id = "1024";
  access_token = "secret";
  connect_timeout = 5000;
  read_timeout = 10000;
}

config_accepted : check_config milliseconds config ≡ ok config
unfolding check_config graph_version_ok after_major phone_number_id_ok validate_timeout require_text
    is_blank is_space
config_accepted = refl

check_config-Endpoint_example :
    Endpoint (post_call config Value.null).url × (is_blank config.access_token ≡ false)
check_config-Endpoint_example =
    check_config-Endpoint milliseconds config config Value.null config_accepted
