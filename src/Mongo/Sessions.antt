-- ===== src/Mongo/Sessions.antt =====
-- The text sessions of src/healthassure_messaging/persistence/mongo.py: a stored record, and the
-- purposes that it allows.
pub mod Policy
mod Readable
pub mod Opened
use healthassure_messaging.Base.{
  ℕ, String, Bool, true, false, not, ◌&&◌, ◌||◌, Option, none, some, List, [], ◌∷◌, leb, elem,
  nat_eq, ◌==◌, if◌then◌else◌,
}
use healthassure_messaging.Errors.{Error, Result, ok, err, ◌>>=◌, ◌>>◌, raise_if, require_text}
use healthassure_messaging.Phone.{validate_e164_number}
use healthassure_messaging.Json.{Value, Array, Object, nil, cons, end, field, get}
use healthassure_messaging.Mongo.Documents.{
  record_call, as_document, text_value, doc_text, doc_int, list_value, validate_schema, nat,
  mongo_record_schema_version,
}

-- `not values`.
abbrev pub is_empty {ℓ} : {A : Type ℓ} → List A → Bool
is_empty [] = true
is_empty (x ∷ xs) = false

abbrev pub texts_eq : List String → List String → Bool
texts_eq [] [] = true
texts_eq (s ∷ ss) (t ∷ ts) = s == t && texts_eq ss ts
texts_eq _ _ = false

-- `_purpose_keys`: the loop, given the purposes before it, and the whole.
unfoldable pub purposes_after : List String → List String → Result (List String)
purposes_after seen [] = ok []
purposes_after seen (value ∷ values) = do
  purpose ← require_text value
  raise_if (elem purpose seen) Error.value_error
  rest ← purposes_after (purpose ∷ seen) values
  ok (purpose ∷ rest)

unfoldable pub purpose_keys : List String → Result (List String)
unfolding purposes_after
purpose_keys values = do
  resolved ← purposes_after [] values
  raise_if (is_empty resolved) Error.value_error
  ok resolved

-- `_stored_purpose_keys`, in the same way.
unfoldable pub stored_purposes_after : List String → Array → Result (List String)
stored_purposes_after seen nil = ok []
stored_purposes_after seen (cons raw values) = do
  purpose ← text_value (some raw)
  raise_if (elem purpose seen) Error.mongo_record
  rest ← stored_purposes_after (purpose ∷ seen) values
  ok (purpose ∷ rest)

unfoldable pub stored_purpose_keys : Option Value → Bool → Result (List String)
unfolding stored_purposes_after
stored_purpose_keys value allow_empty = do
  values ← list_value Error.mongo_record value
  resolved ← stored_purposes_after [] values
  raise_if (not allow_empty && is_empty resolved) Error.mongo_record
  ok resolved

-- The purposes of a session, and its times.
pub record Session : Type 0 where
  pub purposes : List String
  pub opened_at : ℕ
  pub expires_at : ℕ

abbrev pub inactive : Session
inactive = record { purposes = []; opened_at = 0; expires_at = 0 }

abbrev pub same_session : Session → Session → Bool
same_session s t =
    texts_eq s.purposes t.purposes
    && nat_eq s.opened_at t.opened_at
    && nat_eq s.expires_at t.expires_at

-- One round of the loop over the events, after the test on the identifier: the session it opens.
unfoldable pub read_opening : Object → Result Session
unfolding stored_purpose_keys
read_opening event = do
  event_purposes ← stored_purpose_keys (get "allowed_purpose_keys" event) false
  event_opened_at ← doc_int event "opened_at_epoch" 0
  event_expires_at ← doc_int event "expires_at_epoch" 0
  raise_if (leb event_expires_at event_opened_at) Error.value_error
  ok (record {
    purposes = event_purposes;
    opened_at = event_opened_at;
    expires_at = event_expires_at;
  })

-- The loop, given the identifiers and the session before it: the events, and the last session.
unfoldable pub read_openings : List String → Session → Array → Result (List Object × Session)
unfolding read_opening
read_openings event_ids final nil = ok ([], final)
read_openings event_ids final (cons x xs) = do
  event ← as_document x
  event_id ← doc_text event "event_id"
  raise_if (elem event_id event_ids) Error.value_error
  opened ← read_opening event
  (events, last) ← read_openings (event_id ∷ event_ids) opened xs
  ok (event ∷ events, last)

-- The last test: against the inactive state where there is no event.
abbrev pub check_history : List Object → Session → Session → Result (Unit {0})
check_history [] stored final =
    raise_if
      (not (is_empty stored.purposes)
        || not (nat_eq stored.opened_at 0)
        || not (nat_eq stored.expires_at 0))
      Error.value_error
check_history (e ∷ events) stored final =
    raise_if (not (same_session stored final)) Error.value_error

-- What a session is stored under.
pub record SessionScope : Type 0 where
  pub provider_key : String
  pub phone_number_id : String
  pub recipient : String

unfoldable pub build_session_record : Object → SessionScope → Result (Session × List Object)
unfolding stored_purpose_keys read_openings
build_session_record document expected = do
  provider_key ← doc_text document "provider_key"
  raise_if (not (provider_key == expected.provider_key)) Error.value_error
  phone_number_id ← doc_text document "phone_number_id"
  raise_if (not (phone_number_id == expected.phone_number_id)) Error.value_error
  r ← doc_text document "recipient"
  stored_recipient ← validate_e164_number r
  raise_if (not (stored_recipient == expected.recipient)) Error.value_error
  purposes ← stored_purpose_keys (get "allowed_purpose_keys" document) true
  opened_at ← doc_int document "opened_at_epoch" 0
  expires_at ← doc_int document "expires_at_epoch" 0
  raw_events ← list_value Error.value_error (get "events" document)
  (events, final) ← read_openings [] inactive raw_events
  let stored : Session = record {
    purposes = purposes;
    opened_at = opened_at;
    expires_at = expires_at;
  }
  check_history events stored final
  ok (stored, events)

unfoldable pub session_record_from_document : Value → SessionScope → Result (Session × List Object)
unfolding build_session_record
session_record_from_document v expected = do
  document ← as_document v
  validate_schema document
  record_call (build_session_record document expected)

-- `list(purposes)` in a document.
unfoldable pub text_array : List String → Array
text_array [] = nil
text_array (s ∷ ss) = cons (Value.str s) (text_array ss)

abbrev pub session_fields : Session → Object → Object
session_fields s rest =
    field "allowed_purpose_keys" (Value.arr (text_array s.purposes))
      (field "opened_at_epoch" (nat s.opened_at) (field "expires_at_epoch" (nat s.expires_at) rest))

abbrev pub scope_fields : SessionScope → Object → Object
scope_fields scope rest = field "provider_key" (Value.str scope.provider_key) (
    field "phone_number_id" (Value.str scope.phone_number_id)
      (field "recipient" (Value.str scope.recipient) rest))

unfoldable pub initial_session : SessionScope → Object
unfolding text_array
initial_session scope =
    field "record_schema_version" (nat mongo_record_schema_version)
      (scope_fields scope (session_fields inactive (field "events" (Value.arr nil) end)))

unfoldable pub session_event : String → Session → Object
unfolding text_array
session_event event_id s = field "event_id" (Value.str event_id) (session_fields s end)
