-- ===== src/Webhooks/Parse.antt =====
-- The parsing half of src/healthassure_messaging/providers/meta_webhooks.py. `_fail` raises an
-- internal exception that `parse_meta_delivery_status_events` turns into MetaWebhookParseError; here
-- it raises that error at once.
use healthassure_messaging.Base.{
  ℕ, String, Bool, false, not, ◌&&◌, Option, none, some, List, [], ◌∷◌, ◌++◌, leb, ◌==◌,
  if◌then◌else◌,
}
use healthassure_messaging.Base.Int.{pos}
use healthassure_messaging.Base.Text.{is_blank, is_decimal, size}
use healthassure_messaging.Base.Decimal.{decimal, decimal_value}
use healthassure_messaging.Enums.{DeliveryStatus}
use healthassure_messaging.Errors.{Error, Result, ok, err, ◌>>=◌, ◌>>◌, raise_if}
use healthassure_messaging.Json.{Value, Array, Object, nil, cons, get}
use healthassure_messaging.Webhooks.{
  DeliveryError, DeliveryStatusEvent, check_delivery_error, check_event,
}

abbrev pub fail {ℓ} : {A : Type ℓ} → Result A
fail = err Error.webhook_parse

-- The arguments are what `d.get(key, _MISSING)` gives: `none` stands for `_MISSING`.
unfoldable pub require_object : Option Value → Result Object
require_object (some (Value.obj d)) = ok d
require_object _ = fail

unfoldable pub require_array : Option Value → Result Array
require_array (some (Value.arr xs)) = ok xs
require_array _ = fail

unfoldable pub require_text : Option Value → Result String
require_text (some (Value.str s)) = if is_blank s then fail else ok s
require_text _ = fail

unfoldable pub optional_text : Option Value → Result (Option String)
optional_text none = ok none
optional_text (some v) = do s ← require_text (some v); ok (some s)

-- `int(text)` refuses a text of more digits than the interpreter's limit.
abbrev pub max_int_digits : ℕ
max_int_digits = 4300

unfoldable pub require_timestamp : Option Value → Result ℕ
require_timestamp (some (Value.str s)) =
    if is_decimal s && leb (size s) max_int_digits then ok (decimal_value s) else fail
require_timestamp _ = fail

-- `type(v) is int and 0 <= v <= 2_147_483_647`.
unfoldable pub require_code : Option Value → Result ℕ
require_code (some (Value.num (pos n))) = if leb n 2147483647 then ok n else fail
require_code _ = fail

unfoldable pub optional_code : Option Value → Result (Option ℕ)
optional_code none = ok none
optional_code (some v) = do n ← require_code (some v); ok (some n)

unfoldable pub parse_error : Value → Result DeliveryError
parse_error value = do
  error ← require_object (some value)
  code ← require_code (get "code" error)
  subcode ← optional_code (get "error_subcode" error)
  check_delivery_error (record { provider_code = decimal code; provider_subcode = subcode })

unfoldable pub parse_error_items : Array → Result (List DeliveryError)
parse_error_items nil = ok []
parse_error_items (cons x xs) = do e ← parse_error x; es ← parse_error_items xs; ok (e ∷ es)

unfoldable pub parse_errors : Option Value → Result (List DeliveryError)
parse_errors none = ok []
parse_errors (some v) = do xs ← require_array (some v); parse_error_items xs

unfoldable pub parse_origin : Option Value → Result (Option String)
parse_origin none = ok none
parse_origin (some v) = do
  origin ← require_object (some v)
  t ← require_text (get "type" origin)
  ok (some t)

unfoldable pub parse_conversation : Option Value → Result (Option String × Option String)
parse_conversation none = ok (none, none)
parse_conversation (some v) = do
  conversation ← require_object (some v)
  id ← require_text (get "id" conversation)
  origin ← parse_origin (get "origin" conversation)
  ok (some id, origin)

unfoldable pub optional_bool : Option Value → Result (Option Bool)
optional_bool none = ok none
optional_bool (some (Value.bool b)) = ok (some b)
optional_bool (some _) = fail

-- The model, the category and whether it is billable.
unfoldable pub parse_pricing : Option Value → Result (Option String × Option String × Option Bool)
parse_pricing none = ok (none, none, none)
parse_pricing (some v) = do
  pricing ← require_object (some v)
  model ← optional_text (get "pricing_model" pricing)
  category ← optional_text (get "category" pricing)
  billable ← optional_bool (get "billable" pricing)
  ok (model, category, billable)

unfoldable pub known_status : String → DeliveryStatus
known_status s =
    if s == "sent"
    then DeliveryStatus.sent
    else if s == "delivered"
    then DeliveryStatus.delivered
    else if s == "read"
    then DeliveryStatus.read
    else if s == "failed"
    then DeliveryStatus.failed
    else if s == "deleted"
    then DeliveryStatus.deleted
    else DeliveryStatus.unknown

unfoldable pub parse_status : String → String → Value → Result DeliveryStatusEvent
parse_status waba_id phone_number_id status_value = do
  status_object ← require_object (some status_value)
  provider_message_id ← require_text (get "id" status_object)
  provider_status ← require_text (get "status" status_object)
  timestamp ← require_timestamp (get "timestamp" status_object)
  recipient_id ← require_text (get "recipient_id" status_object)
  errors ← parse_errors (get "errors" status_object)
  conversation ← parse_conversation (get "conversation" status_object)
  pricing ← parse_pricing (get "pricing" status_object)
  check_event (record {
    provider_key = "meta";
    provider_message_id = provider_message_id;
    status = known_status provider_status;
    provider_status = provider_status;
    occurred_at_epoch = timestamp;
    recipient_id = recipient_id;
    waba_id = waba_id;
    phone_number_id = phone_number_id;
    errors = errors;
    conversation_id = conversation.0;
    conversation_origin_type = conversation.1;
    pricing_model = pricing.0;
    pricing_category = pricing.1;
    billable = pricing.2;
  })

unfoldable pub parse_statuses : String → String → Array → Result (List DeliveryStatusEvent)
parse_statuses waba_id phone_number_id nil = ok []
parse_statuses waba_id phone_number_id (cons x xs) = do
  e ← parse_status waba_id phone_number_id x
  es ← parse_statuses waba_id phone_number_id xs
  ok (e ∷ es)

-- The statuses of one change; an empty array needs no identifiers.
unfoldable pub parse_change_statuses : Object → Object → Array → Result (List DeliveryStatusEvent)
parse_change_statuses entry value nil = ok []
parse_change_statuses entry value (cons x xs) = do
  waba_id ← require_text (get "id" entry)
  metadata ← require_object (get "metadata" value)
  phone_number_id ← require_text (get "phone_number_id" metadata)
  parse_statuses waba_id phone_number_id (cons x xs)

unfoldable pub parse_change_value :
    Object → Object → Option Value → Result (List DeliveryStatusEvent)
parse_change_value entry value none = ok []
parse_change_value entry value (some v) = do
  statuses ← require_array (some v)
  parse_change_statuses entry value statuses

-- The value of a change to messages.
unfoldable pub parse_messages_change : Object → Object → Result (List DeliveryStatusEvent)
parse_messages_change entry change = do
  value ← require_object (get "value" change)
  parse_change_value entry value (get "statuses" value)

unfoldable pub parse_change : Object → Value → Result (List DeliveryStatusEvent)
parse_change entry change_value = do
  change ← require_object (some change_value)
  name ← require_text (get "field" change)
  (if name == "messages" then parse_messages_change entry change else ok [])

unfoldable pub parse_changes : Object → Array → Result (List DeliveryStatusEvent)
parse_changes entry nil = ok []
parse_changes entry (cons x xs) = do
  es ← parse_change entry x
  rest ← parse_changes entry xs
  ok (es ++ rest)

unfoldable pub parse_entry : Value → Result (List DeliveryStatusEvent)
parse_entry entry_value = do
  entry ← require_object (some entry_value)
  changes ← require_array (get "changes" entry)
  parse_changes entry changes

unfoldable pub parse_entries : Array → Result (List DeliveryStatusEvent)
parse_entries nil = ok []
parse_entries (cons x xs) = do es ← parse_entry x; rest ← parse_entries xs; ok (es ++ rest)

-- `root.get("object") == "whatsapp_business_account"`.
unfoldable pub expected_object : Option Value → Bool
expected_object (some (Value.str s)) = s == "whatsapp_business_account"
expected_object _ = false

unfoldable pub parse_document : Value → Result (List DeliveryStatusEvent)
parse_document document = do
  root ← require_object (some document)
  raise_if (not (expected_object (get "object" root))) Error.webhook_parse
  entries ← require_array (get "entry" root)
  parse_entries entries

-- `decode` gives `none` where the body is not UTF-8 or `json.loads` raises ValueError or
-- RecursionError, which `_decode_json` catches.
unfoldable pub parse_meta_delivery_status_events :
    (List ℕ → Option Value) → List ℕ → Result (List DeliveryStatusEvent)
parse_meta_delivery_status_events decode raw_body = elim (decode raw_body) [
  | none ↦ fail
  | some document ↦ parse_document document
]
