-- ===== src/Service.antt =====
-- src/healthassure_messaging/service.py: the messaging service. `E` is the state of everything
-- outside it: the repository, the policies, the catalog, the providers and other processes.
pub mod Monad
pub mod Fingerprint
pub mod Send
pub mod Setup
pub mod Mismatch
pub mod Settling
pub mod Consistent
pub mod Safety
pub mod Effects
pub mod Replay
use healthassure_messaging.Base.{
  ℕ, String, ◌≡◌, Bool, true, false, not, ◌&&◌, ◌||◌, Option, none, some, ◌==◌, if◌then◌else◌,
}
use healthassure_messaging.Enums.{
  SendDisposition, ErrorCategory, IntentState, terminal_state, is_terminal, is_pending,
}
use healthassure_messaging.Errors.{Error, Result, ok, err, raise_if}
use healthassure_messaging.Contracts.{NormalizedError, MessageRequest, SendResult}
use healthassure_messaging.ServiceContracts.{
  TemplateAlias, RecipientEligibility, DispatchResult, MessageIntent, IntentCreationResult,
  check_dispatch_result, replace_result,
}
use healthassure_messaging.ServiceContracts.Equality.{intent_eq}
use healthassure_messaging.Provider.{Reply, World, ProviderRegistry, gateway_send}
use healthassure_messaging.Json.{JsonCodec}
use healthassure_messaging.Serialization.Reading.{deserialize_request}
use Monad.{Action, pure, lift, ask, dependency, ◌>>=◌}
use Fingerprint.{Digests}

-- The injected objects (ports.py) and factories.
pub record Ports (E : Type 0) : Type 0 where
  pub find_template : String → E → Reply (Option TemplateAlias) × E
  pub evaluate : String → E → Reply RecipientEligibility × E
  pub has_active_session : String → String → E → Reply Bool × E
  pub find_intent : String → String → E → Reply (Option MessageIntent) × E
  pub create_if_absent : MessageIntent → E → Reply IntentCreationResult × E
  pub claim : String → E → Reply (Option MessageIntent) × E
  pub complete : String → IntentState → DispatchResult → E → Reply (Option MessageIntent) × E
  pub new_correlation_id : E → Reply String × E
  pub new_intent_id : E → Reply String × E

-- What `MessagingService.__init__` stores.
pub record MessagingService (E : Type 0) : Type 0 where
  pub ports : Ports E
  pub providers : ProviderRegistry E
  pub codec : JsonCodec
  pub digests : Digests
  pub text_provider_key : String
  pub default_region : Option String
  pub sensitive_fingerprint_key : Option String

abbrev pub policy_error : NormalizedError
policy_error = record {
  category = ErrorCategory.authorization;
  safe_message = "Messaging policy denied the request";
  retriable = false;
  unknown_outcome = false;
  provider_code = none;
  http_status = none;
  provider_subcode = none;
  retry_after_seconds = none;
}

abbrev pub unavailable_error : NormalizedError
unavailable_error = record policy_error {
  category = ErrorCategory.unsupported;
  safe_message = "Selected messaging provider is unavailable";
}

abbrev pub unknown_error : NormalizedError
unknown_error = record policy_error {
  category = ErrorCategory.unknown;
  safe_message = "Dispatch outcome is unknown";
  unknown_outcome = true;
}

-- A result that the service makes up for an intent.
abbrev pub local_result :
    MessageIntent → SendDisposition → Option String → NormalizedError → DispatchResult
local_result intent disposition status error = record {
  intent_id = intent.intent_id;
  provider_key = intent.provider_key;
  disposition = disposition;
  correlation_id = intent.correlation_id;
  provider_message_id = none;
  provider_status = status;
  error = some error;
  idempotent_replay = false;
}

-- `_from_provider_result`.
unfoldable pub from_provider_result : MessageIntent → SendResult → Result DispatchResult
from_provider_result intent result = check_dispatch_result (record {
  intent_id = intent.intent_id;
  provider_key = result.provider_key;
  disposition = result.disposition;
  correlation_id = result.correlation_id;
  provider_message_id = result.provider_message_id;
  provider_status = result.provider_status;
  error = result.error;
  idempotent_replay = false;
})

-- `_terminal_replay`.
unfoldable pub terminal_replay : MessageIntent → Result DispatchResult
terminal_replay intent = elim intent.result [
  | none ↦ err Error.intent_state
  | some r ↦ check_dispatch_result (record r { idempotent_replay = true })
]

-- A result with the flag `provider_invoked`.
abbrev pub flagged : Bool → Result DispatchResult → Result (DispatchResult × Bool)
flagged invoked (ok r) = ok (r, invoked)
flagged invoked (err e) = err e

-- The result of an `except Exception` handler, where the provider counts as invoked.
abbrev pub unknown_result : MessageIntent → Result (DispatchResult × Bool)
unknown_result intent =
    flagged true
      (check_dispatch_result (local_result intent SendDisposition.unknown none unknown_error))

-- The `try` statement of `_dispatch_claimed`: the result, and `provider_invoked`.
unfoldable pub attempt_result : MessageIntent → Result SendResult → Result (DispatchResult × Bool)
attempt_result intent (ok provider_result) = elim (from_provider_result intent provider_result) [
  | ok r ↦ ok (r, true)
  | err e ↦ unknown_result intent
]
attempt_result intent (err Error.provider_not_found) = flagged false (
    check_dispatch_result (
      local_result intent SendDisposition.rejected (some "provider_not_registered")
        unavailable_error))
attempt_result intent (err e) = unknown_result intent

-- `assert completed.result is not None; return completed.result`.
abbrev pub asserted_result : MessageIntent → Result DispatchResult
asserted_result intent = elim intent.result [ none ↦ err Error.assertion_error | some r ↦ ok r ]

-- The exception of a completion that was not confirmed.
abbrev pub unconfirmed : Bool → Error
unconfirmed invoked = if invoked then Error.post_dispatch_persistence else Error.service_dependency

-- What the completion's reply means: only the expected intent counts as stored.
unfoldable pub settle_completion :
    MessageIntent → Bool → Reply (Option MessageIntent) → Result DispatchResult
settle_completion expected invoked (Reply.value (some completed)) =
    if intent_eq completed expected then asserted_result completed else err (unconfirmed invoked)
settle_completion expected invoked _ = err (unconfirmed invoked)

-- The outcome of a stored intent that another caller owns or has finished.
unfoldable pub race_outcome : MessageIntent → Option MessageIntent → Result DispatchResult
race_outcome intent none = err Error.intent_state
race_outcome intent (some current) =
    if current.request_fingerprint == intent.request_fingerprint
    then if is_terminal current.state then terminal_replay current else err Error.intent_in_progress
    else err Error.idempotency_conflict

module _ {E : Type 0} (s : MessagingService E) where
  pub get_intent : String → String → Action E (Option MessageIntent)
  get_intent source_flow idempotency_key = do
    reply ← ask (s.ports.find_intent source_flow idempotency_key)
    lift (dependency reply)

  pub create_intent : MessageIntent → Action E IntentCreationResult
  create_intent intent = do reply ← ask (s.ports.create_if_absent intent); lift (dependency reply)

  pub claim_intent : String → Action E (Option MessageIntent)
  claim_intent intent_id = do reply ← ask (s.ports.claim intent_id); lift (dependency reply)

  pub complete_intent : String → IntentState → DispatchResult → Action E (Option MessageIntent)
  complete_intent intent_id expected_state result = do
    reply ← ask (s.ports.complete intent_id expected_state result)
    lift (dependency reply)

  pub resolve_claim_race : MessageIntent → Action E DispatchResult
  resolve_claim_race intent = do
    current ← get_intent intent.source_flow intent.idempotency_key
    lift (race_outcome intent current)

  -- The text session, asked for text messages only.
  pub session_eligible : String → Option String → Action E Bool
  session_eligible recipient none = pure true
  session_eligible recipient (some purpose) = do
    reply ← ask (s.ports.has_active_session recipient purpose)
    lift (dependency reply)

  pub is_policy_eligible : String → Option String → Action E Bool
  is_policy_eligible recipient purpose = do
    reply ← ask (s.ports.evaluate recipient)
    eligibility ← lift (dependency reply)
    (if not eligibility.consented || eligibility.suppressed
        then pure false
        else session_eligible recipient purpose)

  -- What follows a completion from PENDING.
  pub rejection_outcome : MessageIntent → Option MessageIntent → Action E DispatchResult
  rejection_outcome intent none = resolve_claim_race intent
  rejection_outcome intent (some completed) = lift (asserted_result completed)

  pub complete_local_rejection : MessageIntent → Action E DispatchResult
  complete_local_rejection intent = do
    result ← lift (
        check_dispatch_result
          (local_result intent SendDisposition.rejected (some "policy_rejected") policy_error))
    completed ← complete_intent intent.intent_id IntentState.pending result
    rejection_outcome intent completed

  unfoldable pub complete_claimed_intent :
      MessageIntent → DispatchResult → Bool → Action E DispatchResult
  complete_claimed_intent intent result invoked = do
    expected ← lift (replace_result intent (terminal_state result.disposition) result)
    reply ← ask (s.ports.complete intent.intent_id IntentState.dispatching result)
    lift (settle_completion expected invoked reply)

  -- What follows the `try` statement.
  unfoldable pub finish_attempt :
      MessageIntent → Result (DispatchResult × Bool) → Action E DispatchResult
  finish_attempt intent (ok (result, invoked)) = complete_claimed_intent intent result invoked
  finish_attempt intent (err e) = lift (err e)

  unfoldable pub dispatch_claimed : MessageIntent → MessageRequest → Action E DispatchResult
  dispatch_claimed intent request w =
      let (provider_result, w') = gateway_send s.providers intent.provider_key request w in
      finish_attempt intent (attempt_result intent provider_result) w'

  -- `deserialize_request` under `except Exception`.
  unfoldable pub restore_request : MessageIntent → Option MessageRequest → Result MessageRequest
  restore_request intent (some transient) = ok transient
  restore_request intent none = elim (deserialize_request s.codec intent.serialized_request) [
    | ok r ↦ ok r
    | err e ↦ err Error.service_dependency
  ]

  -- What follows the claim.
  pub claim_outcome :
      MessageIntent → MessageRequest → Option MessageIntent → Action E DispatchResult
  claim_outcome intent request none = resolve_claim_race intent
  claim_outcome intent request (some claimed) = dispatch_claimed claimed request

  -- The part of `_continue_intent` for a pending intent.
  pub continue_pending :
      MessageIntent → String → Option String → Option MessageRequest → Action E DispatchResult
  continue_pending intent recipient purpose transient = do
    request ← lift (restore_request intent transient)
    eligible ← is_policy_eligible recipient purpose
    (if eligible
        then (do claimed ← claim_intent intent.intent_id; claim_outcome intent request claimed)
        else complete_local_rejection intent)

  -- The branches on the state of an intent with the right fingerprint.
  pub continue_from :
      IntentState
      → MessageIntent
      → String
      → Option String
      → Option MessageRequest
      → Action E DispatchResult
  continue_from IntentState.pending intent recipient purpose transient =
      continue_pending intent recipient purpose transient
  continue_from IntentState.dispatching intent recipient purpose transient =
      lift (err Error.intent_in_progress)
  continue_from _ intent recipient purpose transient = lift (terminal_replay intent)

  pub continue_intent :
      MessageIntent
      → String
      → String
      → Option String
      → Option MessageRequest
      → Action E DispatchResult
  continue_intent intent fingerprint recipient purpose transient =
      if intent.request_fingerprint == fingerprint
      then continue_from intent.state intent recipient purpose transient
      else lift (err Error.idempotency_conflict)
