-- ===== src/Mongo/Policies/History.antt =====
-- A recipient's record of src/healthassure_messaging/persistence/mongo.py, and the events that led to it.
use healthassure_messaging.Base.{
  String, ◌≡◌, refl, ◌∙◌, Bool, true, false, Option, none, some, List, [], ◌∷◌, ◌++◌, elem, arith,
}
use healthassure_messaging.Base.Text.{is_blank, is_space}
use healthassure_messaging.Errors.{ok}
use healthassure_messaging.Phone.{validate_e164_number, is_e164_number, e164}
use healthassure_messaging.ServiceContracts.{RecipientEligibility}
use healthassure_messaging.Json.{Value, Array, Object, nil, get, has}
use healthassure_messaging.Mongo.Documents.{doc_text, text_value, equals_one}
use healthassure_messaging.Mongo.Policies.{
  PolicyEvidence, policy_event, replay, read_event, read_events, no_history,
  policy_record_from_document, initial_policy, find_event,
}
use healthassure_messaging.Mongo.Policies.Fresh.{Fresh}
use healthassure_messaging.Mongo.Policies.Readable.{IsPolicy, policy_reads, read-IsPolicy}
use healthassure_messaging.Mongo.Policies.Policy.{policy_update}
use healthassure_messaging.Mongo.Updates.{Applied, snoc}
use healthassure_messaging.Mongo.Policies.Events.{
  Operation, grant, revoke, suppress, clear, event-Written, event_made, read-Written, snoc-Returns,
}

kept :
    (operation : String) (c s : Option Bool) (event : Object) {before after : Object}
    → Operation operation c s
    → Applied (policy_update c s event) before after
    → (get "record_schema_version" after ≡ get "record_schema_version" before)
      × (get "recipient" after ≡ get "recipient" before)
unfolding policy_update get has
kept _ _ _ event grant a = (a.keeps "record_schema_version" refl, a.keeps "recipient" refl)
kept _ _ _ event revoke a = (a.keeps "record_schema_version" refl, a.keeps "recipient" refl)
kept _ _ _ event suppress a = (a.keeps "record_schema_version" refl, a.keeps "recipient" refl)
kept _ _ _ event clear a = (a.keeps "record_schema_version" refl, a.keeps "recipient" refl)

-- The two flags after an operation are those that `replay` gives.
flags_after :
    (operation : String) (c s : Option Bool) (event : Object) {before after : Object}
    (state : RecipientEligibility)
    → Operation operation c s
    → Applied (policy_update c s event) before after
    → get "consented" before ≡ some (Value.bool state.consented)
    → get "suppressed" before ≡ some (Value.bool state.suppressed)
    → (get "consented" after ≡ some (Value.bool (replay operation state).consented))
      × (get "suppressed" after ≡ some (Value.bool (replay operation state).suppressed))
unfolding policy_update get has replay
flags_after _ _ _ event state grant a h k =
    (a.sets "consented" (Value.bool true) refl, a.keeps "suppressed" refl ∙ k)
flags_after _ _ _ event state revoke a h k =
    (a.sets "consented" (Value.bool false) refl, a.keeps "suppressed" refl ∙ k)
flags_after _ _ _ event state suppress a h k =
    (a.keeps "consented" refl ∙ h, a.sets "suppressed" (Value.bool true) refl)
flags_after _ _ _ event state clear a h k =
    (a.keeps "consented" refl ∙ h, a.sets "suppressed" (Value.bool false) refl)

pushed :
    (c s : Option Bool) (event : Object) {before after : Object} (raw : Array)
    → Applied (policy_update c s event) before after
    → get "events" before ≡ some (Value.arr raw)
    → get "events" after ≡ some (Value.arr (snoc raw (Value.obj event)))
unfolding policy_update get
pushed c s event raw a h = a.pushes "events" (Value.obj event) raw refl h

-- One operation on a record that can be read.
IsPolicy-step :
    (operation : String) (c s : Option Bool) (ev : PolicyEvidence) (event before after : Object)
    (recipient : String) (state : RecipientEligibility) (events : List Object)
    → Operation operation c s
    → policy_event operation ev ≡ ok event
    → Fresh ev.event_id events
    → Applied (policy_update c s event) before after
    → IsPolicy before recipient state events
    → IsPolicy after recipient (replay operation state) (events ++ (event ∷ []))
unfolding doc_text
IsPolicy-step operation c s ev event before after recipient state events o made fresh a p =
    let k = kept operation c s event o a in
    let f = flags_after operation c s event state o a p.consented p.suppressed in
    let reads : (seen : List String)
        → elem ev.event_id seen ≡ false
        → read_event seen event ≡ ok (ev.event_id, operation) =
      λ seen n.
        rw (event_made operation ev event made)
          (read-Written seen operation c s ev _ o (event-Written operation ev event made) n) in
    record {
      schema = rw k.0 (p.schema);
      stored_recipient = p.stored_recipient;
      recipient_text = rw k.1 (p.recipient_text);
      recipient_valid = p.recipient_valid;
      consented = f.0;
      suppressed = f.1;
      raw = snoc p.raw (Value.obj event);
      stored = pushed c s event p.raw a p.stored;
      history =
          (snoc-Returns ev.event_id operation event reads [] no_history p.raw refl).at
            (events, state) p.history fresh;
    }

-- The records of a recipient: the one that the first operation inserts, and what the updates of the
-- operations make of it, each with evidence of a new identifier.
pub data Recorded (recipient : String) : Object → RecipientEligibility → List Object → Type 0 where
  initial : Recorded recipient (initial_policy recipient) no_history []
  updated :
      {operation : String} {c s : Option Bool} {event before after : Object}
      {state : RecipientEligibility} {events : List Object} (ev : PolicyEvidence)
      → Recorded recipient before state events
      → Operation operation c s
      → policy_event operation ev ≡ ok event
      → find_event ev.event_id events ≡ none
      → Applied (policy_update c s event) before after
      → Recorded recipient after (replay operation state) (events ++ (event ∷ []))

recipient_visible : (r : String) → validate_e164_number r ≡ ok r → is_blank r ≡ false
unfolding validate_e164_number is_e164_number e164 is_blank is_space
recipient_visible String.[] h = absurd (cc h)
recipient_visible (String.◌∷◌ p String.[]) h = absurd (cc h)
recipient_visible (String.◌∷◌ p (String.◌∷◌ q r)) h = ground arith

Recorded-IsPolicy :
    {recipient : String} {d : Object} {state : RecipientEligibility} {events : List Object}
    → validate_e164_number recipient ≡ ok recipient
    → Recorded recipient d state events
    → IsPolicy d recipient state events
unfolding initial_policy get read_events doc_text text_value equals_one
Recorded-IsPolicy {recipient} valid initial = record {
  schema = refl;
  stored_recipient = recipient;
  recipient_text = rw (recipient_visible recipient valid);
  recipient_valid = valid;
  consented = refl;
  suppressed = refl;
  raw = nil;
  stored = refl;
  history = refl;
}
Recorded-IsPolicy valid (updated ev r o made fresh a) =
    IsPolicy-step _ _ _ ev _ _ _ _ _ _ o made fresh a (Recorded-IsPolicy valid r)

-- The record of a valid number can be read whatever operations have updated it, each with evidence of
-- a new identifier: the reader gives the state that the operations lead to, in their order, and their
-- evidence.
pub policy_record_from_document-Recorded :
    {recipient : String} {d : Object} {state : RecipientEligibility} {events : List Object}
    → validate_e164_number recipient ≡ ok recipient
    → Recorded recipient d state events
    → policy_record_from_document (Value.obj d) recipient ≡ ok (state, events)
policy_record_from_document-Recorded valid r = policy_reads _ _ _ _ (Recorded-IsPolicy valid r)

-- An operation on any record that can be read, with evidence of a new identifier, leaves one that can
-- be read: it has the state that the operation gives, and the evidence at the end of its events.
pub policy_record_from_document-policy_update :
    (operation : String) (c s : Option Bool) (ev : PolicyEvidence) (event before after : Object)
    (recipient : String) (state : RecipientEligibility) (events : List Object)
    → Operation operation c s
    → policy_event operation ev ≡ ok event
    → find_event ev.event_id events ≡ none
    → Applied (policy_update c s event) before after
    → policy_record_from_document (Value.obj before) recipient ≡ ok (state, events)
    → policy_record_from_document (Value.obj after) recipient
      ≡ ok (replay operation state, events ++ (event ∷ []))
policy_record_from_document-policy_update operation c s ev event before after recipient state events
      o made fresh a h =
    policy_reads after recipient _ _ (
      IsPolicy-step operation c s ev event before after recipient state events o made fresh a
        ((read-IsPolicy before recipient).at (state, events) h))
