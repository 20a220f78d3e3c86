-- ===== src/Mongo/Policies/Policy.antt =====
-- `MongoRecipientEligibilityPolicy` of src/healthassure_messaging/persistence/mongo.py.
use healthassure_messaging.Base.{String, Bool, true, false, Option, none, some, if◌then◌else◌}
use healthassure_messaging.Errors.{Error, Result, ok, err}
use healthassure_messaging.Phone.{validate_e164_number}
use healthassure_messaging.ServiceContracts.{RecipientEligibility}
use healthassure_messaging.Json.{Value, Object, end, field}
use healthassure_messaging.Mongo.{Collection, Action, done, mongo_call, ◌>>=◌, ◌>>◌}
use healthassure_messaging.Mongo.Documents.{nat, mongo_record_schema_version}
use healthassure_messaging.Mongo.Equality.{same, holds_event}
use healthassure_messaging.Mongo.Policies.{
  PolicyEvidence, policy_event, policy_record_from_document, initial_policy, find_event, no_history,
}

abbrev pub recipient_query : String → Object
recipient_query recipient = field "recipient" (Value.str recipient) end

-- `events.event_id` is none of the stored ones.
abbrev pub unused_event : String → Object
unused_event event_id =
    field "events.event_id" (Value.obj (field "$ne" (Value.str event_id) end)) end

unfoldable pub policy_query : String → String → Object
policy_query recipient event_id =
    field "recipient" (Value.str recipient)
      (field "record_schema_version" (nat mongo_record_schema_version) (unused_event event_id))

abbrev pub optional_flag : String → Option Bool → Object → Object
optional_flag key none rest = rest
optional_flag key (some b) rest = field key (Value.bool b) rest

unfoldable pub policy_update : Option Bool → Option Bool → Object → Object
policy_update consented suppressed event =
    field "$set"
      (Value.obj (optional_flag "consented" consented (optional_flag "suppressed" suppressed end)))
      (field "$push" (Value.obj (field "events" (Value.obj event) end)) end)

unfoldable pub eligibility_of : Option Value → String → Result RecipientEligibility
eligibility_of none recipient = ok no_history
eligibility_of (some v) recipient = elim (policy_record_from_document v recipient) [
  | ok r ↦ ok r.0
  | err e ↦ err e
]

module _ {E : Type 0} (collection : Collection E) where
  unfoldable pub evaluate : String → Action E RecipientEligibility
  unfolding eligibility_of
  evaluate recipient = do
    normalized ← done (validate_e164_number recipient)
    document ← mongo_call (collection.find_one (recipient_query normalized))
    done (eligibility_of document normalized)

  -- What follows an update that found no record to change.
  unfoldable pub raced : String → Object → Option Value → Action E RecipientEligibility
  unfolding evaluate
  raced recipient event none = done (err Error.mongo_conflict)
  raced recipient event (some v) = do
    r ← done (policy_record_from_document v recipient)
    (if holds_event event r.1 then evaluate recipient else done (err Error.mongo_conflict))

  -- The part of `_apply` for an event that is not stored.
  unfoldable pub push_event :
      String → String → Option Bool → Option Bool → Object → Action E RecipientEligibility
  unfolding raced
  push_event recipient event_id consented suppressed event = do
    updated ← mongo_call (
        collection.update (policy_query recipient event_id)
          (policy_update consented suppressed event))
    elim updated [
      | none ↦ (do
        stored ← mongo_call (collection.find_one (recipient_query recipient))
        raced recipient event stored)
      | some v ↦ evaluate recipient
    ]

  -- The loop over the stored events: one of the identifier ends the call.
  unfoldable pub repeat_event : String → Object → Object → Action E RecipientEligibility
  unfolding evaluate
  repeat_event recipient event existing =
      if same (Value.obj existing) (Value.obj event)
      then evaluate recipient
      else done (err Error.mongo_conflict)

  unfoldable pub apply_stored :
      String
      → String
      → Option Bool
      → Option Bool
      → Object
      → Option Value
      → Action E RecipientEligibility
  unfolding push_event repeat_event
  apply_stored recipient event_id consented suppressed event none =
      done (err Error.mongo_persistence)
  apply_stored recipient event_id consented suppressed event (some v) = do
    r ← done (policy_record_from_document v recipient)
    elim (find_event event_id r.1) [
      | some existing ↦ repeat_event recipient event existing
      | none ↦ push_event recipient event_id consented suppressed event
    ]

  -- `_apply`.
  unfoldable pub apply :
      String → Option Bool → Option Bool → String → PolicyEvidence → Action E RecipientEligibility
  unfolding apply_stored
  apply operation consented suppressed recipient_value evidence = do
    recipient ← done (validate_e164_number recipient_value)
    event ← done (policy_event operation evidence)
    mongo_call (collection.upsert (recipient_query recipient) (initial_policy recipient))
    current ← mongo_call (collection.find_one (recipient_query recipient))
    apply_stored recipient evidence.event_id consented suppressed event current

  unfoldable pub grant_consent : String → PolicyEvidence → Action E RecipientEligibility
  unfolding apply
  grant_consent = apply "grant_consent" (some true) none

  unfoldable pub revoke_consent : String → PolicyEvidence → Action E RecipientEligibility
  unfolding apply
  revoke_consent = apply "revoke_consent" (some false) none

  unfoldable pub apply_suppression : String → PolicyEvidence → Action E RecipientEligibility
  unfolding apply
  apply_suppression = apply "apply_suppression" none (some true)

  unfoldable pub clear_suppression : String → PolicyEvidence → Action E RecipientEligibility
  unfolding apply
  clear_suppression = apply "clear_suppression" none (some false)
