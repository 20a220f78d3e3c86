-- ===== src/Examples/Sessions.antt =====
-- Runs of the sessions of src/healthassure_messaging/persistence/mongo.py.
use mathlib.Core.Path.{subst}
use healthassure_messaging.Base.{◌≡◌, refl, none, some, [], ◌∷◌, arith}
use healthassure_messaging.Base.Text.{is_blank, is_space}
use healthassure_messaging.Enums.{state_value}
use healthassure_messaging.Errors.{ok, require_text, require_optional_text}
use healthassure_messaging.Contracts.{check_error}
use healthassure_messaging.Phone.{
  validate_e164_number, is_e164_number, e164, national_ok, indian_mobile,
}
use healthassure_messaging.ServiceContracts.{check_dispatch_result}
use healthassure_messaging.Json.{Value, Object, nil, cons, end, field, get, has}
use healthassure_messaging.Mongo.Documents.{
  nat, as_document, doc_text, text_value, doc_int, int_value, list_value, validate_schema,
  equals_one, record_call,
}
use healthassure_messaging.Mongo.Updates.{Applied, snoc}
use healthassure_messaging.Mongo.Policies.{find_event}
use healthassure_messaging.Mongo.Sessions.{
  Session, SessionScope, inactive, purpose_keys, purposes_after, stored_purpose_keys,
  stored_purposes_after, read_openings, build_session_record, session_record_from_document,
  text_array, initial_session, session_event,
}
use healthassure_messaging.Mongo.Sessions.Policy.{opening_update}
use healthassure_messaging.Mongo.Sessions.Opened.{
  IsOpening, session_record_from_document-opening_update,
}
use healthassure_messaging.Mongo.Results.{result_to_document}
use healthassure_messaging.Mongo.Intents.{intent_from_document}
use healthassure_messaging.Mongo.Intents.Requests.{complete_set, same_identity}
use healthassure_messaging.Mongo.Intents.Completed.{completed_by, intent_from_document-complete_set}
use healthassure_messaging.Examples.World.{recipient}
use healthassure_messaging.Examples.Records.{
  only_key, pushed_first, empty_list, pending, stored, pending_read, rejected,
}

-- The first session of a recipient, from 5 to 9.
abbrev session : Session
session = record { purposes = "support" ∷ []; opened_at = 5; expires_at = 9 }

abbrev scope : SessionScope
scope = record { provider_key = "fake"; phone_number_id = "1"; recipient = recipient }

abbrev unopened : Object
unopened = initial_session scope

abbrev opened : Object
opened = field "allowed_purpose_keys" (Value.arr (cons (Value.str "support") nil)) (
    field "opened_at_epoch" (nat 5) (
      field "expires_at_epoch" (nat 9)
        (field "events" (Value.arr (cons (Value.obj (session_event "e-1" session)) nil)) unopened)))

opened-Applied : Applied (opening_update session (session_event "e-1" session)) unopened opened
unfolding opening_update get has initial_session text_array
opened-Applied = record {
  sets = λ k v h. ground arith;
  pushes = λ k v xs h.
      let (key, same) = only_key k "events" v (Value.obj (session_event "e-1" session)) h in
      subst
        (λ j. get j unopened ≡ some (Value.arr xs) → get j opened ≡ some (Value.arr (snoc xs v)))
        key (λ g. pushed_first _ v xs same (empty_list xs g));
  increments = λ k m n h. absurd (cc h);
  keeps = λ k h. ground arith;
}

opening : IsOpening "e-1" session
unfolding purpose_keys purposes_after require_text is_blank is_space
opening = record { visible = refl; given = "support" ∷ []; purposes_valid = refl; in_order = refl }

unopened_read : session_record_from_document (Value.obj unopened) scope ≡ ok (inactive, [])
unfolding session_record_from_document build_session_record initial_session validate_schema
    equals_one as_document get doc_text text_value doc_int int_value list_value record_call
    stored_purpose_keys stored_purposes_after read_openings text_array is_blank is_space
    validate_e164_number is_e164_number e164 national_ok indian_mobile
unopened_read = refl

nothing_found : find_event "e-1" [] ≡ none
unfolding find_event
nothing_found = refl

session_record_from_document-opening_update_example :
    session_record_from_document (Value.obj opened) scope
    ≡ ok (session, session_event "e-1" session ∷ [])
session_record_from_document-opening_update_example =
    session_record_from_document-opening_update "e-1" session inactive scope [] unopened opened
      opening nothing_found opened-Applied unopened_read

-- The pending intent, rejected before its dispatch.
abbrev settled : Object
settled = field "state" (Value.str "rejected") (
    field "result" (result_to_document rejected)
      (field "updated_at_epoch" (nat 9) (field "completed_at_epoch" (nat 9) stored)))

settled-Applied : Applied (complete_set rejected 9 end) stored settled
unfolding complete_set get has state_value
settled-Applied = record {
  sets = λ k v h. ground arith;
  pushes = λ k v xs h. absurd (cc h);
  increments = λ k m n h. absurd (cc h);
  keeps = λ k h. ground arith;
}

intent_from_document-complete_set_example :
    intent_from_document (Value.obj settled) ≡ ok (completed_by pending rejected)
unfolding same_identity check_dispatch_result check_error require_text require_optional_text
    is_blank is_space
intent_from_document-complete_set_example =
    intent_from_document-complete_set rejected 9 stored settled pending settled-Applied pending_read
      refl refl refl
