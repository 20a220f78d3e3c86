-- ===== src/Mongo/Policies.antt =====
-- The recipient policies of src/healthassure_messaging/persistence/mongo.py: the events of a record, and
-- the state that they lead to.
pub mod Policy
pub mod Fresh
mod Readable
pub mod Events
pub mod History
use healthassure_messaging.Base.{
  ℕ, String, Bool, true, false, not, ◌&&◌, ◌||◌, Option, none, some, List, [], ◌∷◌, elem, ◌==◌,
  if◌then◌else◌,
}
use healthassure_messaging.Base.Int.{ℤ}
use healthassure_messaging.Errors.{Error, Result, ok, err, ◌>>=◌, ◌>>◌, raise_if, require_text}
use healthassure_messaging.Phone.{validate_e164_number}
use healthassure_messaging.ServiceContracts.{RecipientEligibility}
use healthassure_messaging.Json.{Value, Array, Object, nil, cons, end, field, get}
use healthassure_messaging.Mongo.Documents.{
  record_call, require_epoch, as_document, doc_text, doc_int, doc_bool, list_value, validate_schema,
  nat, mongo_record_schema_version,
}

-- The keyword arguments of the four operations, but for the recipient.
pub record PolicyEvidence : Type 0 where
  pub event_id : String
  pub actor_id : String
  pub source : String
  pub evidence_reference : String
  pub occurred_at_epoch : ℤ

unfoldable pub event_document : String → PolicyEvidence → ℕ → Object
event_document operation e occurred_at = field "event_id" (Value.str e.event_id) (
    field "operation" (Value.str operation) (
      field "actor_id" (Value.str e.actor_id) (
        field "source" (Value.str e.source) (
          field "evidence_reference" (Value.str e.evidence_reference)
            (field "occurred_at_epoch" (nat occurred_at) end)))))

unfoldable pub policy_event : String → PolicyEvidence → Result Object
unfolding event_document
policy_event operation e = do
  require_text e.event_id
  require_text e.actor_id
  require_text e.source
  require_text e.evidence_reference
  occurred_at ← require_epoch e.occurred_at_epoch
  ok (event_document operation e occurred_at)

-- `_POLICY_OPERATIONS`.
unfoldable pub policy_operations : List String
policy_operations =
    "grant_consent" ∷ "revoke_consent" ∷ "apply_suppression" ∷ "clear_suppression" ∷ []

-- The branches on the operation of a stored event.
unfoldable pub replay : String → RecipientEligibility → RecipientEligibility
replay operation state =
    if operation == "grant_consent"
    then record state { consented = true }
    else if operation == "revoke_consent"
    then record state { consented = false }
    else if operation == "apply_suppression"
    then record state { suppressed = true }
    else record state { suppressed = false }

-- The tests on one event, given the identifiers before it: its identifier and its operation.
unfoldable pub read_event : List String → Object → Result (String × String)
unfolding policy_operations
read_event event_ids event = do
  event_id ← doc_text event "event_id"
  raise_if (elem event_id event_ids) Error.value_error
  operation ← doc_text event "operation"
  raise_if (not (elem operation policy_operations)) Error.value_error
  doc_text event "actor_id"
  doc_text event "source"
  doc_text event "evidence_reference"
  doc_int event "occurred_at_epoch" 0
  ok (event_id, operation)

-- The loop over the events: the events, and the state after them.
unfoldable pub read_events :
    List String → RecipientEligibility → Array → Result (List Object × RecipientEligibility)
unfolding read_event
read_events event_ids state nil = ok ([], state)
read_events event_ids state (cons x xs) = do
  event ← as_document x
  (event_id, operation) ← read_event event_ids event
  (events, final) ← read_events (event_id ∷ event_ids) (replay operation state) xs
  ok (event ∷ events, final)

abbrev pub bool_eq : Bool → Bool → Bool
bool_eq true b = b
bool_eq false b = not b

abbrev pub no_history : RecipientEligibility
no_history = record { consented = false; suppressed = false }

unfoldable pub build_policy_record : Object → String → Result (RecipientEligibility × List Object)
unfolding read_events
build_policy_record document expected_recipient = do
  r ← doc_text document "recipient"
  stored_recipient ← validate_e164_number r
  raise_if (not (stored_recipient == expected_recipient)) Error.value_error
  consented ← doc_bool document "consented"
  suppressed ← doc_bool document "suppressed"
  raw_events ← list_value Error.value_error (get "events" document)
  (events, final) ← read_events [] no_history raw_events
  raise_if (not (bool_eq consented final.consented) || not (bool_eq suppressed final.suppressed))
      Error.value_error
  ok (record { consented = consented; suppressed = suppressed }, events)

unfoldable pub policy_record_from_document :
    Value → String → Result (RecipientEligibility × List Object)
unfolding build_policy_record
policy_record_from_document v expected_recipient = do
  document ← as_document v
  validate_schema document
  record_call (build_policy_record document expected_recipient)

unfoldable pub initial_policy : String → Object
initial_policy recipient = field "record_schema_version" (nat mongo_record_schema_version) (
    field "recipient" (Value.str recipient) (
      field "consented" (Value.bool false)
        (field "suppressed" (Value.bool false) (field "events" (Value.arr nil) end))))

-- The first stored event of an identifier; stored identifiers are texts.
unfoldable pub find_event : String → List Object → Option Object
find_event event_id [] = none
find_event event_id (e ∷ events) =
    let rest = find_event event_id events in
    elim (get "event_id" e) [
      | some (Value.str s) ↦ if s == event_id then some e else rest
      | _ ↦ rest
    ]
