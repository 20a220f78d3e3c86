-- ===== src/Examples/Hooks.antt =====
-- Runs of src/healthassure_messaging/providers/meta_webhooks.py.
use healthassure_messaging.Base.{
  ℕ, String, ◌≡◌, ◌≢◌, ◌↔◌, refl, true, false, none, some, List, [], ◌∷◌, ◌++◌, All, eq_iff, arith,
}
use healthassure_messaging.Base.Text.{every, is_blank, is_space}
use healthassure_messaging.Base.Int.{pos}
use healthassure_messaging.Base.Decimal.{
  decimal, decimal_from, digit, decimal_value, decimal_value_from,
}
use healthassure_messaging.Enums.{DeliveryStatus}
use healthassure_messaging.Errors
use healthassure_messaging.Errors.{Error, Result, ok, err, require_optional_text}
use healthassure_messaging.Json.{Value, nil, cons, end, field, get}
use healthassure_messaging.Webhooks.{DeliveryStatusEvent, check_delivery_error, check_event}
use healthassure_messaging.Webhooks.Parse.{
  require_object, require_array, require_text, optional_text, require_timestamp, require_code,
  optional_code, parse_error, parse_error_items, parse_errors, parse_origin, parse_conversation,
  optional_bool, parse_pricing, known_status, parse_status, parse_statuses, parse_change_statuses,
  parse_change_value, parse_messages_change, parse_change, parse_changes, parse_entry,
  parse_entries, expected_object, parse_document, parse_meta_delivery_status_events,
}
use healthassure_messaging.Webhooks.Closed.{Closed}
use healthassure_messaging.Webhooks.Sound.{IsSound, parse_events-Closed}
use healthassure_messaging.Webhooks.Signature.{
  is_hex, hex_value, from_hex, strip_prefix, signature_digits, compare_digest,
  verify_meta_webhook_signature,
}
use healthassure_messaging.Webhooks.Verify.{signature_header, verify_accepts}

-- A failed message with one error.
abbrev status : Value
status = Value.obj (
    field "id" (Value.str "wamid") (
      field "status" (Value.str "failed") (
        field "timestamp" (Value.str "1700000000") (
          field "recipient_id" (Value.str "919876543210") (
            field "errors"
              (Value.arr (cons (Value.obj (field "code" (Value.num (pos 131)) end)) nil)) end)))))

abbrev change : Value
change = Value.obj (
    field "field" (Value.str "messages") (
      field "value"
        (Value.obj (
          field "metadata" (Value.obj (field "phone_number_id" (Value.str "p-1") end))
            (field "statuses" (Value.arr (cons status nil)) end)))
        end))

abbrev document : Value
document = Value.obj (
    field "object" (Value.str "whatsapp_business_account") (
      field "entry"
        (Value.arr (
          cons
            (Value.obj
              (field "id" (Value.str "w-1") (field "changes" (Value.arr (cons change nil)) end)))
            nil))
        end))

abbrev event : DeliveryStatusEvent
event = record {
  provider_key = "meta";
  provider_message_id = "wamid";
  status = DeliveryStatus.failed;
  provider_status = "failed";
  occurred_at_epoch = 1700000000;
  recipient_id = "919876543210";
  waba_id = "w-1";
  phone_number_id = "p-1";
  errors = record { provider_code = "131"; provider_subcode = none } ∷ [];
  conversation_id = none;
  conversation_origin_type = none;
  pricing_model = none;
  pricing_category = none;
  billable = none;
}

parsed : parse_meta_delivery_status_events (λ b. some document) [] ≡ ok (event ∷ [])
unfolding require_object require_array require_text optional_text require_timestamp require_code
    optional_code parse_error parse_error_items parse_errors parse_origin parse_conversation
    optional_bool parse_pricing known_status parse_status parse_statuses parse_change_statuses
    parse_change_value parse_messages_change parse_change parse_changes parse_entry parse_entries
    expected_object parse_document parse_meta_delivery_status_events get check_event
    check_delivery_error Errors.require_text require_optional_text is_blank is_space decimal
    decimal_from digit decimal_value decimal_value_from
parsed = refl

parse_events-Closed_example :
    Closed (All IsSound) (parse_meta_delivery_status_events (λ b. some document) [])
parse_events-Closed_example = parse_events-Closed (λ b. some document) []

abbrev digits : String
digits = "00ff00ff00ff00ff00ff00ff00ff00ff00ff00ff00ff00ff00ff00ff00ff00ff"

abbrev mac : String → List ℕ → List ℕ
mac secret body = body ++ body

abbrev body : List ℕ
body = 0 ∷ 255 ∷ 0 ∷ 255 ∷ 0 ∷ 255 ∷ 0 ∷ 255 ∷ 0 ∷ 255 ∷ 0 ∷ 255 ∷ 0 ∷ 255 ∷ 0 ∷ 255 ∷ []

accepted : verify_meta_webhook_signature mac body (some (signature_header digits)) "key" ≡ ok true
unfolding verify_meta_webhook_signature signature_digits strip_prefix is_hex from_hex hex_value
    compare_digest
accepted = refl

all_hex : every is_hex digits ≡ true
unfolding is_hex
all_hex = refl

key_given : ◌≢◌ {A = String} "key" ""
key_given = ground (arith, eq_iff "key" "")

verify_accepts_example :
    ((verify_meta_webhook_signature mac body (some (signature_header digits)) "key" ≡ ok true)
      ↔ (from_hex digits ≡ mac "key" body))
    × (verify_meta_webhook_signature mac body none "key" ≡ ok false)
verify_accepts_example = verify_accepts mac body digits "key" key_given all_hex refl
