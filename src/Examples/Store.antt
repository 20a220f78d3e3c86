-- ===== src/Examples/Store.antt =====
-- Runs of the in-memory repository of src/healthassure_messaging/testing.py.
use healthassure_messaging.Base.{◌≡◌, refl, false, none, some, [], ◌∷◌}
use healthassure_messaging.Base.Text.{is_blank, is_space}
use healthassure_messaging.Enums.{SendDisposition, IntentState}
use healthassure_messaging.Errors.{ok, require_text}
use healthassure_messaging.ServiceContracts.{
  DispatchResult, MessageIntent, check_intent, replace_state, replace_result, result_fits,
}
use healthassure_messaging.InMemory.{
  Repository, Event, create_if_absent, create_new, claim, claim_known, claim_at, complete,
  complete_known, complete_at, store_checked, store, intent_at, put_intent, scope_at, put_scope,
}
use healthassure_messaging.InMemory.Exclusive.{Step, Steps, claim_once}
use healthassure_messaging.Examples.World.{empty, claimed}

abbrev pending : MessageIntent
pending = record claimed { state = IntentState.pending }

-- The repository with one pending intent.
abbrev one : Repository
one = record {
  by_scope = (("flow", "k-1"), pending) ∷ [];
  scope_by_id = ("i-1", ("flow", "k-1")) ∷ [];
  events = Event.created ∷ [];
}

created_run : (create_if_absent pending empty.env).1 ≡ one
unfolding create_if_absent create_new intent_at put_intent scope_at put_scope
created_run = refl

claimed_run : (claim "i-1" one).0 ≡ ok (some claimed)
unfolding claim claim_known claim_at store_checked store intent_at scope_at require_text is_blank
    is_space replace_state check_intent result_fits
claimed_run = refl

abbrev finished : DispatchResult
finished = record {
  intent_id = "i-1";
  provider_key = "fake";
  disposition = SendDisposition.accepted;
  correlation_id = "c-1";
  provider_message_id = some "m-1";
  provider_status = none;
  error = none;
  idempotent_replay = false;
}

completed_run :
    (complete "i-1" IntentState.dispatching finished (claim "i-1" one).1).0
    ≡ ok (some (record claimed { state = IntentState.accepted; result = some finished }))
unfolding claim claim_known claim_at store_checked store intent_at put_intent scope_at require_text
    is_blank is_space replace_state replace_result check_intent result_fits complete complete_known
    complete_at
completed_run = refl

abbrev later : Repository
later = (complete "i-1" IntentState.dispatching finished (claim "i-1" one).1).1

claim_once_example : (claim "i-1" later).0 ≡ ok none
claim_once_example =
    claim_once "i-1" one later claimed claimed_run
      (Steps.after (Step.completed "i-1" IntentState.dispatching finished) Steps.done)
