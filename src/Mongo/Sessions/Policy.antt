-- ===== src/Mongo/Sessions/Policy.antt =====
-- `MongoTextSessionPolicy` of src/healthassure_messaging/persistence/mongo.py.
use healthassure_messaging.Base.{
  String, Bool, true, false, ◌&&◌, Option, none, some, List, ltb, leb, elem, if◌then◌else◌,
}
use healthassure_messaging.Base.Int.{ℤ}
use healthassure_messaging.Errors.{Error, ok, err, raise_if, require_text}
use healthassure_messaging.Phone.{validate_e164_number}
use healthassure_messaging.Json.{Value, Object, end, field}
use healthassure_messaging.Mongo.{Collection, Action, done, mongo_call, ◌>>=◌, ◌>>◌}
use healthassure_messaging.Mongo.Documents.{require_epoch, nat, mongo_record_schema_version}
use healthassure_messaging.Mongo.Equality.{same, holds_event}
use healthassure_messaging.Mongo.Policies.{find_event}
use healthassure_messaging.Mongo.Policies.Policy.{unused_event}
use healthassure_messaging.Mongo.Sessions.{
  Session, SessionScope, purpose_keys, session_record_from_document, session_fields, scope_fields,
  initial_session, session_event,
}

-- The arguments of `open_session`, but for the recipient.
pub record Opening : Type 0 where
  pub event_id : String
  pub allowed_purpose_keys : List String
  pub opened_at_epoch : ℤ
  pub expires_at_epoch : ℤ

-- The keys under which the sessions of one configuration are stored.
unfoldable pub session_query : SessionScope → Object
session_query scope = scope_fields scope end

unfoldable pub unopened_query : SessionScope → String → Object
unopened_query scope event_id =
    scope_fields scope
      (field "record_schema_version" (nat mongo_record_schema_version) (unused_event event_id))

unfoldable pub opening_update : Session → Object → Object
opening_update s event =
    field "$set" (Value.obj (session_fields s end))
      (field "$push" (Value.obj (field "events" (Value.obj event) end)) end)

module _ {E : Type 0} (collection : Collection E) (provider_key phone_number_id : String)
    (clock : E → ℤ × E) where
  abbrev pub scope_of : String → SessionScope
  scope_of recipient = record {
    provider_key = provider_key;
    phone_number_id = phone_number_id;
    recipient = recipient;
  }

  -- The part of `has_active_session` after the lookup.
  unfoldable pub is_active : SessionScope → String → Option Value → Action E Bool
  is_active scope purpose none = done (ok false)
  is_active scope purpose (some v) = do
    r ← done (session_record_from_document v scope)
    now ← (λ e. let (t, e') = clock e in (require_epoch t, e'))
    done (ok (elem purpose r.0.purposes && ltb now r.0.expires_at))

  unfoldable pub has_active_session : String → String → Action E Bool
  unfolding is_active session_query
  has_active_session recipient purpose_key = do
    normalized ← done (validate_e164_number recipient)
    purpose ← done (require_text purpose_key)
    document ← mongo_call (collection.find_one (session_query (scope_of normalized)))
    is_active (scope_of normalized) purpose document

  -- What follows an update that found no record to change.
  unfoldable pub raced_opening : SessionScope → Object → Option Value → Action E (Unit {0})
  raced_opening scope event none = done (err Error.mongo_conflict)
  raced_opening scope event (some v) = do
    r ← done (session_record_from_document v scope)
    done (raise_if (if holds_event event r.1 then false else true) Error.mongo_conflict)

  unfoldable pub push_opening : SessionScope → String → Session → Object → Action E (Unit {0})
  unfolding raced_opening session_query unopened_query opening_update
  push_opening scope event_id s event = do
    updated ←
        mongo_call (collection.update (unopened_query scope event_id) (opening_update s event))
    elim updated [
      | none ↦ (do
        stored ← mongo_call (collection.find_one (session_query scope))
        raced_opening scope event stored)
      | some v ↦ done (ok tt)
    ]

  -- The part of `open_session` after the upsert.
  unfoldable pub open_stored :
      SessionScope → String → Session → Object → Option Value → Action E (Unit {0})
  unfolding push_opening
  open_stored scope event_id s event none = done (err Error.mongo_persistence)
  open_stored scope event_id s event (some v) = do
    r ← done (session_record_from_document v scope)
    elim (find_event event_id r.1) [
      | some existing ↦
          done (
            if same (Value.obj existing) (Value.obj event) then ok tt else err Error.mongo_conflict)
      | none ↦ push_opening scope event_id s event
    ]

  unfoldable pub open_session : String → Opening → Action E (Unit {0})
  unfolding open_stored session_query initial_session session_event
  open_session recipient o = do
    normalized ← done (validate_e164_number recipient)
    purposes ← done (purpose_keys o.allowed_purpose_keys)
    opened_at ← done (require_epoch o.opened_at_epoch)
    expires_at ← done (require_epoch o.expires_at_epoch)
    done (raise_if (leb expires_at opened_at) Error.value_error)
    event_id ← done (require_text o.event_id)
    let s : Session = record { purposes = purposes; opened_at = opened_at; expires_at = expires_at }
    let scope = scope_of normalized
    mongo_call (collection.upsert (session_query scope) (initial_session scope))
    current ← mongo_call (collection.find_one (session_query scope))
    open_stored scope event_id s (session_event event_id s) current
