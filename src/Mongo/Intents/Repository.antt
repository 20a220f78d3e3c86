-- ===== src/Mongo/Intents/Repository.antt =====
-- `MongoIntentRepository` of src/healthassure_messaging/persistence/mongo.py, over one collection and a
-- clock.
use healthassure_messaging.Base.{
  ℕ, suc, String, Bool, false, not, Option, none, some, List, [], ◌∷◌, if◌then◌else◌,
}
use healthassure_messaging.Base.Int.{ℤ}
use healthassure_messaging.Enums.{IntentState, state_value, is_pending}
use healthassure_messaging.Errors.{Error, ok, err, raise_if, require_text}
use healthassure_messaging.ServiceContracts.{DispatchResult, MessageIntent, IntentCreationResult}
use healthassure_messaging.Json.{Value, Object, field}
use healthassure_messaging.Mongo.{Answer, Collection, Action, done, mongo_call, ◌>>=◌, ◌>>◌}
use healthassure_messaging.Mongo.Documents.{require_epoch, as_document, doc_int}
use healthassure_messaging.Mongo.Intents.{intent_from_document, intent_to_document}
use healthassure_messaging.Mongo.Intents.Requests.{
  require_limit, text_field, scope_query, claim_query, claim_update, optional_intent, creation,
  same_identity, completion, stale_query, recovered_result,
}

module _ {E : Type 0} (collection : Collection E) (clock : E → ℤ × E) where
  -- `_now`.
  unfoldable pub now : Action E ℕ
  now e = let (t, e') = clock e in (require_epoch t, e')

  unfoldable pub get : String → String → Action E (Option MessageIntent)
  get source_flow idempotency_key = do
    done (require_text source_flow)
    done (require_text idempotency_key)
    document ← mongo_call (collection.find_one (scope_query source_flow idempotency_key))
    done (optional_intent document)

  -- What follows the `try` statement of `create_if_absent` where nothing was raised.
  unfoldable pub confirm_creation : Bool → Option Value → Action E IntentCreationResult
  confirm_creation created none = done (err Error.mongo_persistence)
  confirm_creation created (some stored) = done (creation stored created)

  -- What follows it after DuplicateKeyError.
  unfoldable pub after_duplicate : Object → Action E IntentCreationResult
  after_duplicate scope = do
    stored ← mongo_call (collection.find_one scope)
    elim stored [ none ↦ done (err Error.mongo_conflict) | some v ↦ done (creation v false) ]

  unfoldable pub creation_outcome :
      Object → Bool → Answer (Option Value) → Action E IntentCreationResult
  unfolding confirm_creation after_duplicate
  creation_outcome scope created (Answer.answer stored) = confirm_creation created stored
  creation_outcome scope created Answer.duplicate_key = after_duplicate scope
  creation_outcome scope created Answer.failed = done (err Error.mongo_persistence)

  -- The `try` statement, after the upsert.
  unfoldable pub read_created : Object → Answer Bool → Action E IntentCreationResult
  unfolding creation_outcome
  read_created scope (Answer.answer created) e =
      let (stored, e') = collection.find_one scope e in creation_outcome scope created stored e'
  read_created scope Answer.duplicate_key e = after_duplicate scope e
  read_created scope Answer.failed e = (err Error.mongo_persistence, e)

  unfoldable pub upsert_intent : Object → Object → Action E IntentCreationResult
  unfolding read_created
  upsert_intent scope document e =
      let (outcome, e') = collection.upsert scope document e in read_created scope outcome e'

  unfoldable pub create_if_absent : MessageIntent → Action E IntentCreationResult
  unfolding now upsert_intent
  create_if_absent intent = do
    t ← now
    document ← done (intent_to_document intent t)
    upsert_intent (scope_query intent.source_flow intent.idempotency_key) document

  -- The part of `claim` for an intent that is pending.
  unfoldable pub claim_pending : String → Object → Action E (Option MessageIntent)
  unfolding now
  claim_pending intent_id current = do
    attempt_count ← done (doc_int current "attempt_count" 0)
    t ← now
    claimed ←
        mongo_call
          (collection.update (claim_query intent_id attempt_count) (claim_update attempt_count t))
    done (optional_intent claimed)

  unfoldable pub claim_stored : String → Option Value → Action E (Option MessageIntent)
  unfolding claim_pending
  claim_stored intent_id none = done (ok none)
  claim_stored intent_id (some v) = do
    intent ← done (intent_from_document v)
    current ← done (as_document v)
    (if is_pending intent.state then claim_pending intent_id current else done (ok none))

  unfoldable pub claim : String → Action E (Option MessageIntent)
  unfolding claim_stored
  claim intent_id = do
    done (require_text intent_id)
    current ← mongo_call (collection.find_one (text_field "intent_id" intent_id))
    claim_stored intent_id current

  -- The last call of `complete`.
  unfoldable pub run_completion : Option (Object × Object) → Action E (Option MessageIntent)
  run_completion none = done (ok none)
  run_completion (some (query, updates)) = do
    completed ← mongo_call (collection.update query updates)
    done (optional_intent completed)

  unfoldable pub complete_stored :
      String → IntentState → DispatchResult → Option Value → Action E (Option MessageIntent)
  unfolding now run_completion
  complete_stored intent_id expected_state result none = done (ok none)
  complete_stored intent_id expected_state result (some v) = do
    stored ← done (intent_from_document v)
    current ← done (as_document v)
    done (raise_if (not (same_identity intent_id stored result)) Error.mongo_conflict)
    t ← now
    requests ← done (completion intent_id expected_state result t current)
    run_completion requests

  unfoldable pub complete : String → IntentState → DispatchResult → Action E (Option MessageIntent)
  unfolding complete_stored
  complete intent_id expected_state result = do
    done (require_text intent_id)
    current ← mongo_call (
        collection.find_one (
          field "intent_id" (Value.str intent_id)
            (text_field "state" (state_value expected_state))))
    complete_stored intent_id expected_state result current

  -- The loop over the candidates, and the number of those that were completed.
  unfoldable pub recover_each : List Value → Action E ℕ
  unfolding complete
  recover_each [] = done (ok 0)
  recover_each (v ∷ candidates) = do
    intent ← done (intent_from_document v)
    result ← done (recovered_result intent)
    completed ← complete intent.intent_id IntentState.dispatching result
    n ← recover_each candidates
    done (ok (elim completed [ none ↦ n | some i ↦ suc n ]))

  unfoldable pub recover_stale_dispatching : ℤ → ℤ → Action E ℕ
  unfolding recover_each
  recover_stale_dispatching stale_before_epoch limit = do
    t ← done (require_epoch stale_before_epoch)
    n ← done (require_limit limit)
    candidates ←
        mongo_call
          (collection.find (stale_query t) ("dispatch_started_at_epoch" ∷ "intent_id" ∷ []) n)
    recover_each candidates
