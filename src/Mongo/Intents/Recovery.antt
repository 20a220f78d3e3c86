-- ===== src/Mongo/Intents/Recovery.antt =====
-- What src/healthassure_messaging/persistence/mongo.py makes of one stale dispatch.
use healthassure_messaging.Base.{ℕ, ◌≡◌, refl, true, false, none, some, [], ◌∷◌, eq_refl, arith}
use healthassure_messaging.Base.Int.{ℤ, pos}
use healthassure_messaging.Base.Text.{is_blank, is_space}
use healthassure_messaging.Enums.{state_value, SendDisposition, ErrorCategory, IntentState}
use healthassure_messaging.Errors.{Result, ok, err, require_text, require_optional_text}
use healthassure_messaging.Contracts.{NormalizedError, check_error}
use healthassure_messaging.ServiceContracts.{
  MessageIntent, DispatchResult, check_intent, check_dispatch_result,
}
use healthassure_messaging.Json.{Value, Object, field}
use healthassure_messaging.Mongo.{Answer, Collection}
use healthassure_messaging.Mongo.Documents.{require_epoch, as_document}
use healthassure_messaging.Mongo.Intents.{intent_from_document}
use healthassure_messaging.Mongo.Intents.RoundTrip.{intent-Texts}
use healthassure_messaging.Mongo.Intents.Requests.{
  same_identity, recovered_result, completion, optional_intent, attempt_query, attempt_set,
  attempt_key, active_index, text_field,
}
use healthassure_messaging.Mongo.Updates.{AppliedAt}
use healthassure_messaging.Mongo.Intents.Closed.{Read, accepted, intent_from_document-Read}
use healthassure_messaging.Mongo.Intents.Settled.{intent_from_document-attempt_set}
use healthassure_messaging.Mongo.Intents.Repository
use healthassure_messaging.Mongo.Intents.Repository.{
  complete, complete_stored, run_completion, recover_each, recover_stale_dispatching,
}

-- The result of a dispatch whose outcome is not known.
abbrev pub recovery_error : NormalizedError
recovery_error = record {
  category = ErrorCategory.unknown;
  safe_message = "Dispatch outcome is unknown after stale recovery";
  retriable = false;
  unknown_outcome = true;
  provider_code = none;
  http_status = none;
  provider_subcode = none;
  retry_after_seconds = none;
}

abbrev pub recovery_of : MessageIntent → DispatchResult
recovery_of i = record {
  intent_id = i.intent_id;
  provider_key = i.provider_key;
  disposition = SendDisposition.unknown;
  correlation_id = i.correlation_id;
  provider_message_id = none;
  provider_status = some "stale_dispatch_recovered";
  error = some recovery_error;
  idempotent_replay = false;
}

error_accepted : check_error recovery_error ≡ ok recovery_error
unfolding check_error require_text require_optional_text is_blank is_space
error_accepted = refl

status_visible : is_blank "stale_dispatch_recovered" ≡ false
unfolding is_blank is_space
status_visible = refl

-- What the completion asks of the result that the recovery gives an intent.
recovered_result_lem :
    (i : MessageIntent)
    → check_intent i ≡ ok i
    → (recovered_result i ≡ ok (recovery_of i))
      × (check_dispatch_result (recovery_of i) ≡ ok (recovery_of i))
      × (check_error recovery_error ≡ ok recovery_error)
      × (same_identity i.intent_id i (recovery_of i) ≡ true)
unfolding recovered_result check_dispatch_result same_identity require_text require_optional_text
recovered_result_lem i h =
    let t = intent-Texts i h in
    (
      rw (error_accepted, t.id, t.provider, t.correlation, status_visible),
      rw (t.id, t.provider, t.correlation, status_visible),
      error_accepted,
      rw (eq_refl i.intent_id, eq_refl i.provider_key, eq_refl i.correlation_id),
    )

read_valid :
    (o : Result MessageIntent) (i : MessageIntent) → Read o → o ≡ ok i → check_intent i ≡ ok i
read_valid (ok j) i (accepted h) e = ground arith
read_valid (err x) i r e = absurd (cc e)

module _ {E : Type 0} (collection : Collection E) (clock : E → ℤ × E) (i : MessageIntent)
    (before after : Object) (now index : ℕ) (e e1 e2 e3 : E)
    (found : collection.find_one
        (field "intent_id"
          (Value.str i.intent_id)
          (text_field "state" (state_value IntentState.dispatching)))
        e
      ≡ (Answer.answer (some (Value.obj before)), e1))
    (again : intent_from_document (Value.obj before) ≡ ok i)
    (active : active_index before ≡ ok index) (time : clock e1 ≡ (pos now, e2))
    (updated : collection.update
        (attempt_query i.intent_id index)
        (attempt_set (recovery_of i) now index)
        e2
      ≡ (Answer.answer (some (Value.obj after)), e3))
    (applied : AppliedAt
      (attempt_key index)
      index
      (attempt_set (recovery_of i) now index)
      before
      after) where
  left : MessageIntent
  left = record i { state = IntentState.unknown; result = some (recovery_of i) }

  valid : check_intent i ≡ ok i
  valid =
      read_valid (intent_from_document (Value.obj before)) i
        (intent_from_document-Read (Value.obj before)) again

  after_read : intent_from_document (Value.obj after) ≡ ok left
  unfolding left
  after_read =
      let r = recovered_result_lem i valid in
      intent_from_document-attempt_set (recovery_of i) now index before after i applied again active
        r.3 r.1 r.2

  completes :
      complete collection clock i.intent_id IntentState.dispatching (recovery_of i) e
      ≡ (ok (some left), e3)
  unfolding complete complete_stored run_completion completion optional_intent Repository.now
      require_epoch as_document require_text
  completes =
      let r = recovered_result_lem i valid in
      let t = intent-Texts i valid in
      rw (t.id, found, again, r.3, time, active, updated, after_read) refl

  -- Where the collection finds a record that is read as the same intent as the candidate, with an
  -- attempt in progress, the clock gives a time that is not negative, and the collection makes the
  -- update of the completion, the recovery of that candidate counts it, and the record is then a
  -- readable one of the same intent, in the state `unknown`, with the result of the recovery.
  pub recover_each-recovered :
      (candidate : Value)
      → intent_from_document candidate ≡ ok i
      → (recover_each collection clock (candidate ∷ []) e ≡ (ok 1, e3))
        × (intent_from_document (Value.obj after)
            ≡ ok (record i { state = IntentState.unknown; result = some (recovery_of i) }))
  unfolding recover_each left
  recover_each-recovered candidate read =
      let r = recovered_result_lem i valid in (rw (read, r.0, completes) refl, after_read)
