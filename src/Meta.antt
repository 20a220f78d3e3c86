-- ===== src/Meta.antt =====
-- src/healthassure_messaging/providers/meta.py: the Meta Cloud API provider. The transport and
-- `json.loads` on bytes are parameters. `Loaded.malformed` stands for UnicodeDecodeError and
-- JSONDecodeError.
pub mod Payload
pub mod Config
pub mod Endpoint
pub mod Dispositions
use healthassure_messaging.Base.{
  ℕ, String, Bool, true, false, not, ◌&&◌, ◌||◌, Option, none, some, List, [], ◌∷◌, leb, ltb,
  nat_eq, ◌==◌, if◌then◌else◌,
}
use healthassure_messaging.Base.Int.{ℤ, pos}
use healthassure_messaging.Base.Text.{is_blank, is_decimal}
use healthassure_messaging.Base.Decimal.{decimal, decimal_value}
use healthassure_messaging.Enums.{SendDisposition, ErrorCategory}
use healthassure_messaging.Errors.{Error, Result, ok, err, ◌>>=◌}
use healthassure_messaging.Contracts.{
  NormalizedError, MessageRequest, SendResult, check_error, check_send_result,
}
use healthassure_messaging.Http.{HttpResponse, HttpOutcome, TransportFailureKind}
use healthassure_messaging.Json.{Loaded, Value, Array, Object, nil, cons, get}
use healthassure_messaging.Provider.{Reply}
use Payload.{build_payload}

abbrev pub max_retry_after_seconds : ℕ
max_retry_after_seconds = 86400

abbrev pub max_code : ℕ
max_code = 2147483647

-- `_result`: a constructor's ValueError is the outcome where an argument is refused.
unfoldable pub result :
    MessageRequest
    → SendDisposition
    → Option String
    → Option String
    → Option NormalizedError
    → Result SendResult
result request disposition message_id status error = check_send_result (record {
  provider_key = "meta";
  disposition = disposition;
  correlation_id = request.correlation_id;
  provider_message_id = message_id;
  provider_status = status;
  error = error;
})

-- A result with an error and no message.
unfoldable pub error_result : MessageRequest → SendDisposition → NormalizedError → Result SendResult
error_result request disposition error =
    check_error error >>= λ e. result request disposition none none (some e)

abbrev pub plain_error : ErrorCategory → String → Bool → Option ℕ → NormalizedError
plain_error category message unknown_outcome http_status = record {
  category = category;
  safe_message = message;
  retriable = false;
  unknown_outcome = unknown_outcome;
  provider_code = none;
  http_status = http_status;
  provider_subcode = none;
  retry_after_seconds = none;
}

unfoldable pub unsupported_result : MessageRequest → Result SendResult
unsupported_result request = error_result request SendDisposition.rejected (
    plain_error ErrorCategory.unsupported
      "The Meta adapter does not support this template component." false none)

pub transport_failure_result : MessageRequest → TransportFailureKind → Result SendResult
transport_failure_result request TransportFailureKind.timeout =
    error_result request SendDisposition.unknown (
      plain_error ErrorCategory.timeout "The Meta request timed out after dispatch may have begun."
        true none)
transport_failure_result request TransportFailureKind.network =
    error_result request SendDisposition.unknown (
      plain_error ErrorCategory.network "The Meta connection failed after dispatch may have begun."
        true none)

pub protocol_unknown_result : MessageRequest → ℕ → Result SendResult
protocol_unknown_result request status_code = error_result request SendDisposition.unknown (
    plain_error ErrorCategory.protocol "Meta returned an unexpected success response." true
      (some status_code))

pub unverified_server_error_result : MessageRequest → ℕ → Result SendResult
unverified_server_error_result request status_code = error_result request SendDisposition.unknown (
    plain_error ErrorCategory.protocol "Meta returned an unverified server-error response." true
      (some status_code))

unfoldable pub classify_rejection : ℕ → ErrorCategory × Bool
classify_rejection status_code =
    if nat_eq status_code 400
    then (ErrorCategory.validation, false)
    else if nat_eq status_code 401
    then (ErrorCategory.authentication, false)
    else if nat_eq status_code 403
    then (ErrorCategory.authorization, false)
    else if nat_eq status_code 429
    then (ErrorCategory.rate_limit, true)
    else if leb 500 status_code && leb status_code 599
    then (ErrorCategory.provider_temporary, true)
    else if leb 400 status_code && leb status_code 499
    then (ErrorCategory.provider_permanent, false)
    else (ErrorCategory.protocol, false)

unfoldable pub parse_retry_after : Option String → Option ℕ
parse_retry_after none = none
parse_retry_after (some value) =
    if is_decimal value
    then if leb (decimal_value value) max_retry_after_seconds
      then some (decimal_value value)
      else none
    else none

-- `type(v) is int and 0 <= v <= 2_147_483_647`.
unfoldable pub code_of : Option Value → Option ℕ
code_of (some (Value.num (pos n))) = if leb n max_code then some n else none
code_of _ = none

-- A dict, or None.
unfoldable pub object_of : Option Value → Option Object
object_of (some (Value.obj d)) = some d
object_of _ = none

unfoldable pub get_in : String → Option Object → Option Value
get_in key none = none
get_in key (some d) = get key d

unfoldable pub first_message : Option Value → Option Value
first_message (some (Value.arr (cons x xs))) = some x
first_message _ = none

unfoldable pub text_of : Option Value → Option String
text_of (some (Value.str s)) = if is_blank s then none else some s
text_of _ = none

-- The chain of tests of `_success_result`, after the decoding.
unfoldable pub message_id : Option Object → Option String
message_id document = text_of (get_in "id" (object_of (first_message (get_in "messages" document))))

unfoldable pub error_object : Option Object → Option Object
error_object document = object_of (get_in "error" document)

unfoldable pub success_result : MessageRequest → Option Object → HttpResponse → Result SendResult
success_result request document response = elim (message_id document) [
  | none ↦ protocol_unknown_result request response.status_code
  | some id ↦ result request SendDisposition.accepted (some id) (some "accepted") none
]

unfoldable pub rejection_error : Option Object → HttpResponse → NormalizedError
rejection_error document response =
    let error = error_object document in
    record {
      category = (classify_rejection response.status_code).0;
      safe_message = "Meta rejected the message request.";
      retriable = (classify_rejection response.status_code).1;
      unknown_outcome = false;
      provider_code = elim (code_of (get_in "code" error)) [
        | none ↦ none
        | some n ↦ some (decimal n)
      ];
      http_status = some response.status_code;
      provider_subcode = code_of (get_in "error_subcode" error);
      retry_after_seconds = parse_retry_after response.retry_after;
    }

-- A server error without a code of Meta's does not show that the message was refused.
unfoldable pub unverified : Option Object → HttpResponse → Bool
unverified document response =
    leb 500 response.status_code
    && leb response.status_code 599
    && (elim (code_of (get_in "code" (error_object document))) [ none ↦ true | some n ↦ false ])

unfoldable pub rejection_result : MessageRequest → Option Object → HttpResponse → Result SendResult
rejection_result request document response =
    if unverified document response
    then unverified_server_error_result request response.status_code
    else error_result request SendDisposition.rejected (rejection_error document response)

module _ (decode : List ℕ → Loaded) where
  -- `_decode_json_object`: the exceptions of `json.loads` that it catches give `malformed`.
  unfoldable pub decode_json_object : List ℕ → Result (Option Object)
  decode_json_object body = elim (decode body) [
    | Loaded.malformed ↦ ok none
    | Loaded.raised e ↦ err e
    | Loaded.document v ↦ ok (object_of (some v))
  ]

  -- The document, which is not decoded where the body was too large.
  unfoldable pub document_of : HttpResponse → Result (Option Object)
  document_of response =
      if response.body_too_large then ok none else decode_json_object response.body

  -- Both branches decode the document before anything else that may raise.
  unfoldable pub response_result : MessageRequest → HttpResponse → Result SendResult
  response_result request response = do
    document ← document_of response
    (if leb 200 response.status_code && ltb response.status_code 300
        then success_result request document response
        else rejection_result request document response)

  unfoldable pub outcome_result : MessageRequest → HttpOutcome → Result SendResult
  outcome_result request (HttpOutcome.failure kind) = transport_failure_result request kind
  outcome_result request (HttpOutcome.response response) = response_result request response

  abbrev pub reply_of : Result SendResult → Reply SendResult
  reply_of (ok r) = Reply.value r
  reply_of (err e) = Reply.raised e

  -- What the transport's reply leads to; an object of another type fails at its first attribute.
  unfoldable pub transport_reply : MessageRequest → Reply HttpOutcome → Reply SendResult
  transport_reply request (Reply.value outcome) = reply_of (outcome_result request outcome)
  transport_reply request Reply.invalid = Reply.raised Error.attribute_error
  transport_reply request (Reply.raised e) = Reply.raised e

  -- `MetaCloudProvider.send`, over a transport that posts a JSON body.
  unfoldable pub meta_send :
      {E : Type 0} → (Value → E → Reply HttpOutcome × E) → MessageRequest → E → Reply SendResult × E
  meta_send post_json request e = elim (build_payload request) [
    | none ↦ (reply_of (unsupported_result request), e)
    | some payload ↦ let (reply, e') = post_json payload e in (transport_reply request reply, e')
  ]
