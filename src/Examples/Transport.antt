-- ===== src/Examples/Transport.antt =====
-- Runs of src/healthassure_messaging/http.py, providers/meta.py and providers/meta_webhooks.py.
use healthassure_messaging.Base.{ℕ, ◌≡◌, refl, ◌≤◌, true, false, none, some, List, [], ◌∷◌, length}
use healthassure_messaging.Base.Text.{is_blank, is_space}
use healthassure_messaging.Errors.{ok, require_text, require_optional_text}
use healthassure_messaging.Enums.{SendDisposition}
use healthassure_messaging.Contracts.{SendResult, check_send_result}
use healthassure_messaging.Http.{
  HttpResponse, HttpOutcome, StreamedResponse, PostReply, post_json, post_reply, read_response,
  read_chunks, finish_response, bounded_retry_after, check_response,
}
use healthassure_messaging.Http.Bounded.{post_json-received, post_json_bound}
use healthassure_messaging.Json.{Loaded, Value, nil, cons, end, field, get}
use healthassure_messaging.Meta.{
  outcome_result, response_result, success_result, message_id, text_of, get_in, object_of,
  first_message, document_of, decode_json_object, result,
}
use healthassure_messaging.Meta.Dispositions.{Evidence, outcome_result-Evidence}
use healthassure_messaging.Examples.World.{request}

-- A response of two chunks and an empty one.
abbrev streamed : StreamedResponse
streamed = record {
  status_code = 200;
  retry_after = none;
  chunks = (123 ∷ []) ∷ [] ∷ (125 ∷ []) ∷ [];
  broken = none;
}

post_json-received_example :
    post_json 2 "https://graph" (PostReply.streamed streamed)
    ≡ ok (
        HttpOutcome.response (record {
          status_code = 200;
          body = 123 ∷ 125 ∷ [];
          retry_after = none;
          body_too_large = false;
        }))
unfolding bounded_retry_after
post_json-received_example = post_json-received 2 "https://graph" streamed refl refl

-- The same response under a limit of one byte.
abbrev cut : HttpResponse
cut = record { status_code = 200; body = []; retry_after = none; body_too_large = true }

too_large :
    post_json 1 "https://graph" (PostReply.streamed streamed) ≡ ok (HttpOutcome.response cut)
unfolding post_json post_reply read_response read_chunks finish_response bounded_retry_after
    check_response
too_large = refl

post_json_bound_example : length cut.body ≤ 1
post_json_bound_example =
    post_json_bound 1 "https://graph" (PostReply.streamed streamed) cut too_large

-- A decoder that knows one response of Meta's.
abbrev decode : List ℕ → Loaded
decode body = Loaded.document (
    Value.obj (
      field "messages" (Value.arr (cons (Value.obj (field "id" (Value.str "wamid") end)) nil)) end))

abbrev response : HttpResponse
response = record {
  status_code = 200;
  body = 123 ∷ 125 ∷ [];
  retry_after = none;
  body_too_large = false;
}

abbrev sent : SendResult
sent = record {
  provider_key = "meta";
  disposition = SendDisposition.accepted;
  correlation_id = request.correlation_id;
  provider_message_id = some "wamid";
  provider_status = some "accepted";
  error = none;
}

meta_accepts : outcome_result decode request (HttpOutcome.response response) ≡ ok sent
unfolding outcome_result response_result success_result message_id text_of get_in object_of
    first_message document_of decode_json_object get result check_send_result require_optional_text
    require_text is_blank is_space
meta_accepts = refl

outcome_result-Evidence_example :
    Evidence decode (HttpOutcome.response response) sent sent.disposition
outcome_result-Evidence_example =
    outcome_result-Evidence decode request (HttpOutcome.response response) sent meta_accepts
