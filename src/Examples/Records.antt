-- ===== src/Examples/Records.antt =====
-- Runs of the records of src/healthassure_messaging/persistence/mongo.py, with updates that put the new
-- values before the old fields.
use mathlib.Core.Path.{subst}
use healthassure_messaging.Base.{
  ℕ, suc, ◌+◌, String, ◌≡◌, ◌≢◌, ◌∙◌, map, refl, ap, true, false, none, some, [], ◌∷◌, eq_iff,
  arith,
}
use healthassure_messaging.Base.Int.{pos}
use healthassure_messaging.Base.Text.{is_blank, is_space}
use healthassure_messaging.Enums.{
  IntentState, SendDisposition, state_value, ErrorCategory, TemplateComponentType,
  TemplateParameterType, is_button,
}
use healthassure_messaging.Errors.{ok, require_text, require_optional_text, ◌>>=◌}
use healthassure_messaging.Contracts.{check_error}
use healthassure_messaging.Phone.{
  validate_e164_number, is_e164_number, e164, national_ok, indian_mobile,
}
use healthassure_messaging.ServiceContracts.{
  TemplateAlias, MessageIntent, DispatchResult, RecipientEligibility, check_intent, result_fits,
  check_dispatch_result, check_alias, check_component_spec, require_texts, resolved_types,
  check_types,
}
use healthassure_messaging.Json.{Value, Array, Object, nil, cons, end, field, get, has}
use healthassure_messaging.Mongo.Documents.{nat, doc_int, int_value, require_epoch}
use healthassure_messaging.Mongo.Updates.{Applied, snoc}
use healthassure_messaging.Mongo.Results.{result_from_document, result_to_document}
use healthassure_messaging.Mongo.Results.RoundTrip.{result_from_document-result_to_document}
use healthassure_messaging.Mongo.Intents.{
  pending_document, intent_to_document, intent_from_document,
}
use healthassure_messaging.Mongo.Intents.RoundTrip.{
  pending_document_read, intent_from_document-intent_to_document,
}
use healthassure_messaging.Mongo.Intents.Closed.{Read, intent_from_document-Read}
use healthassure_messaging.Mongo.Intents.Requests.{
  claim_attempt, claim_update, claim_query, active_index,
}
use healthassure_messaging.Mongo.Intents.Claimed.{intent_from_document-claim_update}
use healthassure_messaging.Mongo.Policies.{
  PolicyEvidence, policy_event, event_document, policy_record_from_document, initial_policy,
  no_history, replay, find_event,
}
use healthassure_messaging.Mongo.Policies.Policy.{policy_update}
use healthassure_messaging.Mongo.Policies.Events.{Operation}
use healthassure_messaging.Mongo.Policies.History.{
  Recorded, policy_record_from_document-policy_update, policy_record_from_document-Recorded,
}
use healthassure_messaging.Mongo.Templates.{alias_from_document}
use healthassure_messaging.Mongo.Templates.Catalog.{new_alias, deactivation_query}
use healthassure_messaging.Mongo.Templates.Deactivation.{new_alias-ne-deactivation_query}
use healthassure_messaging.Mongo.Templates.Visible.{alias_from_document-new_alias}
use healthassure_messaging.Mongo.Indexes.{
  Database, MongoMessagingPersistence, collection_names, ensure_indexes, index_plan, handle_of,
}
use healthassure_messaging.Mongo.Indexes.Ensured.{
  Ensured, ensure_indexes-Ensured, handle_of-collection_names,
}
use healthassure_messaging.Mongo.{Answer}
use healthassure_messaging.Examples.World.{recipient, alias, claimed}

pub only_key : (k j : String) (v w : Value) → get k (field j w end) ≡ some v → (j ≡ k) × (w ≡ v)
unfolding get
only_key k j v w h = ground (arith, eq_iff j k)

-- A pending intent, stored at the time 5 and claimed at 9.
abbrev pub pending : MessageIntent
pending = record claimed { state = IntentState.pending }

abbrev pub stored : Object
stored = pending_document pending 5

abbrev pub dispatched : Object
dispatched = field "state" (Value.str (state_value IntentState.dispatching)) (
    field "updated_at_epoch" (nat 9) (
      field "dispatch_started_at_epoch" (nat 9) (
        field "attempt_count" (nat 1)
          (field "attempts" (Value.arr (cons (Value.obj (claim_attempt 0 9)) nil)) stored))))

-- What a push to an empty list leaves.
pub pushed_first :
    (w v : Value) (xs : Array)
    → w ≡ v
    → nil ≡ xs
    → some (Value.arr (cons w nil)) ≡ some (Value.arr (snoc xs v))
pushed_first w v xs p q =
    ap (λ x. some (Value.arr (cons x nil))) p ∙ ap (λ ys. some (Value.arr (snoc ys v))) q

pub empty_list : (xs : Array) → some (Value.arr nil) ≡ some (Value.arr xs) → nil ≡ xs
empty_list xs h = cc h

count_after :
    (m n : ℕ) → some (nat 0) ≡ some (nat m) → nat 1 ≡ nat n → some (nat 1) ≡ some (nat (m + n))
count_after m n h p = ground arith

pub dispatched-Applied : Applied (claim_update 0 9) stored dispatched
unfolding claim_update get has pending_document
dispatched-Applied = record {
  sets = λ k v h. ground arith;
  pushes = λ k v xs h.
      let (key, same) = only_key k "attempts" v (Value.obj (claim_attempt 0 9)) h in
      subst
        (λ j. get j stored ≡ some (Value.arr xs) → get j dispatched ≡ some (Value.arr (snoc xs v)))
        key (λ g. pushed_first _ v xs same (empty_list xs g));
  increments = λ k m n h.
      let (key, same) = only_key k "attempt_count" (nat n) (nat 1) h in
      subst (λ j. get j stored ≡ some (nat m) → get j dispatched ≡ some (nat (m + n))) key
        (λ g. count_after m n g same);
  keeps = λ k h. ground arith;
}

pub pending_read : intent_from_document (Value.obj stored) ≡ ok pending
unfolding check_intent result_fits require_text is_blank is_space
pending_read = pending_document_read pending 5 refl refl refl

intent_from_document-claim_update_example :
    (intent_from_document (Value.obj dispatched)
      ≡ ok (record pending { state = IntentState.dispatching }))
    × (active_index dispatched ≡ ok 0)
    × (get "state" dispatched ≢ get "state" (claim_query "i-1" 0))
unfolding doc_int int_value get pending_document
intent_from_document-claim_update_example =
    intent_from_document-claim_update 0 9 stored dispatched pending "i-1" 0 dispatched-Applied
      pending_read refl refl

intent_from_document-intent_to_document_example :
    (intent_to_document pending 5 >>= λ d. intent_from_document (Value.obj d)) ≡ ok pending
unfolding check_intent result_fits require_text is_blank is_space
intent_from_document-intent_to_document_example =
    intent_from_document-intent_to_document pending 5 refl refl refl

intent_from_document-Read_example : Read (intent_from_document (Value.obj stored))
intent_from_document-Read_example = intent_from_document-Read (Value.obj stored)

-- A rejection with an error.
abbrev pub rejected : DispatchResult
rejected = record {
  intent_id = "i-1";
  provider_key = "fake";
  disposition = SendDisposition.rejected;
  correlation_id = "c-1";
  provider_message_id = none;
  provider_status = some "400";
  error = some (record {
    category = ErrorCategory.validation;
    safe_message = "refused";
    retriable = false;
    unknown_outcome = false;
    provider_code = some "100";
    http_status = some 400;
    provider_subcode = none;
    retry_after_seconds = none;
  });
  idempotent_replay = false;
}

result_from_document-result_to_document_example :
    result_from_document (result_to_document rejected) ≡ ok rejected
unfolding check_dispatch_result check_error require_text require_optional_text is_blank is_space
result_from_document-result_to_document_example =
    result_from_document-result_to_document rejected refl refl

-- The first consent of a recipient.
abbrev evidence : PolicyEvidence
evidence = record {
  event_id = "e-1";
  actor_id = "a-1";
  source = "form";
  evidence_reference = "r-1";
  occurred_at_epoch = pos 7;
}

abbrev consent : Object
consent = event_document "grant_consent" evidence 7

abbrev first_record : Object
first_record = initial_policy recipient

abbrev consented_record : Object
consented_record =
    field "consented" (Value.bool true)
      (field "events" (Value.arr (cons (Value.obj consent) nil)) first_record)

consented-Applied : Applied (policy_update (some true) none consent) first_record consented_record
unfolding policy_update get has initial_policy
consented-Applied = record {
  sets = λ k v h. ground arith;
  pushes = λ k v xs h.
      let (key, same) = only_key k "events" v (Value.obj consent) h in
      subst
        (λ j.
          get j first_record ≡ some (Value.arr xs)
          → get j consented_record ≡ some (Value.arr (snoc xs v)))
        key (λ g. pushed_first _ v xs same (empty_list xs g));
  increments = λ k m n h. absurd (cc h);
  keeps = λ k h. ground arith;
}

consent_made : policy_event "grant_consent" evidence ≡ ok consent
unfolding policy_event require_text require_epoch is_blank is_space
consent_made = refl

recipient_valid : validate_e164_number recipient ≡ ok recipient
unfolding validate_e164_number is_e164_number e164 national_ok indian_mobile
recipient_valid = refl

abbrev granted : RecipientEligibility
granted = replay "grant_consent" no_history

nothing_found : find_event "e-1" [] ≡ none
unfolding find_event
nothing_found = refl

policy_record_from_document-Recorded_example :
    policy_record_from_document (Value.obj consented_record) recipient ≡ ok (granted, consent ∷ [])
policy_record_from_document-Recorded_example =
    policy_record_from_document-Recorded recipient_valid (
      Recorded.updated evidence Recorded.initial Operation.grant consent_made nothing_found
        consented-Applied)

policy_record_from_document-policy_update_example :
    policy_record_from_document (Value.obj consented_record) recipient ≡ ok (granted, consent ∷ [])
policy_record_from_document-policy_update_example =
    policy_record_from_document-policy_update "grant_consent" (some true) none evidence consent
      first_record consented_record recipient no_history [] Operation.grant consent_made
      nothing_found consented-Applied
      (policy_record_from_document-Recorded recipient_valid Recorded.initial)

-- An alias with one text.
alias_from_document-new_alias_example :
    alias_from_document (Value.obj (new_alias alias "a-1" 5)) ≡ ok alias
unfolding check_alias check_component_spec require_text is_blank is_space is_button require_texts
    resolved_types check_types
alias_from_document-new_alias_example =
    alias_from_document-new_alias alias "a-1" 5 refl (refl, tt) refl

-- A database that creates every index.
abbrev database : Database ℕ String
database = record {
  get_collection = λ name e. (Answer.answer name, e);
  create_index = λ h d e. (Answer.answer d.name, suc e);
}

abbrev persistence : MongoMessagingPersistence String
persistence = record {
  provider_key = "fake";
  phone_number_id = "1";
  names = collection_names "messaging";
  handles = collection_names "messaging";
}

ensure_indexes-Ensured_example :
    Ensured
      (map (λ d. d.name) (index_plan persistence.names))
      (ensure_indexes database persistence 0).0
ensure_indexes-Ensured_example = ensure_indexes-Ensured database persistence 0

handle_of-collection_names_example :
    let names = collection_names "messaging" in
    (handle_of names names names.intents ≡ ok names.intents)
    × (handle_of names names names.recipient_policy ≡ ok names.recipient_policy)
    × (handle_of names names names.sessions ≡ ok names.sessions)
    × (handle_of names names names.templates ≡ ok names.templates)
handle_of-collection_names_example =
    handle_of-collection_names "messaging" (collection_names "messaging")

-- An alias with an image.
abbrev picture : TemplateAlias
picture = record alias {
  components =
      record {
        component_type = TemplateComponentType.header;
        parameter_names = "banner" ∷ [];
        parameter_types = TemplateParameterType.image ∷ [];
        sub_type = none;
        index = none;
      }
      ∷ [];
}

new_alias-ne-deactivation_query_example :
    get "record_schema_version" (new_alias picture "a-1" 5)
    ≢ get "record_schema_version" (deactivation_query "welcome" 1)
unfolding is_button
new_alias-ne-deactivation_query_example =
    new_alias-ne-deactivation_query picture "a-1" 5 "welcome" 1 refl
