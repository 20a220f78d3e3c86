-- ===== src/Examples/Dispatch.antt =====
-- The theorems on the gateway and the service.
use healthassure_messaging.Service.Replay.{stored_with, dispatch_replayed}
use healthassure_messaging.Service.{
  continue_intent, finish_attempt, complete_claimed_intent, attempt_result, from_provider_result,
  settle_completion,
}
use healthassure_messaging.Enums.{IntentState, SendDisposition}
use healthassure_messaging.ServiceContracts.{
  DispatchResult, check_dispatch_result, check_intent, result_fits, replace_result,
}
use healthassure_messaging.Base.{
  String, true, false, none, some, ◌≡◌, refl, ◌≢◌, [], ◌∷◌, ◌++◌, eq_iff, ◌⊎◌, arith, Option, elem,
}
use healthassure_messaging.Base.Text.{is_blank, is_space}
use healthassure_messaging.Errors.{Error, ok, err, require_text, require_optional_text}
use healthassure_messaging.Contracts.{MessageRequest, check_send_result}
use healthassure_messaging.Provider.{
  Provider, Reply, ProviderRegistry, register, get, gateway_send, find_provider, accept_reply,
  invoke, validate_key, keys, World,
}
use healthassure_messaging.Provider.Gateway.{Selected, Called, gateway_send_lem}
use healthassure_messaging.Provider.Registry.{register-get, register_all, register_twice}
use healthassure_messaging.Templates.{Supplied}
use healthassure_messaging.Service.{dispatch_claimed}
use healthassure_messaging.Service.Effects.{Effect}
use healthassure_messaging.Service.Consistent.{Outcome, dispatch_claimed-Outcome}
use healthassure_messaging.Service.Mismatch.{mismatched_dispatch}
use healthassure_messaging.Service.Send.{Scope, send_template, send_text}
use healthassure_messaging.Service.Send.Once.{send_template-Effect, send_text-Effect}
use healthassure_messaging.InMemory.{
  Repository, complete, complete_known, complete_at, scope_at, intent_at, store_checked, store,
}
use healthassure_messaging.ServiceContracts.Equality.{intent_eq_iff}
use healthassure_messaging.Examples.World.{
  recipient, accepted, fake, providers, request, service, empty, claimed,
}

abbrev scope : Scope
scope = record { source_flow = "flow"; idempotency_key = "k-1"; actor_id = "a-1" }

send_template-Effect_example :
    let (r, w) =
      send_template service recipient "welcome"
        (("name", Supplied.plain "Asha") ∷ [])
        scope
        empty in
    Effect empty.sent r w.sent
send_template-Effect_example =
    send_template-Effect service recipient "welcome" (("name", Supplied.plain "Asha") ∷ []) scope
      empty

send_text-Effect_example :
    let (r, w) = send_text service recipient "hello" "support" scope empty in
    Effect empty.sent r w.sent
send_text-Effect_example = send_text-Effect service recipient "hello" "support" scope empty

dispatch_claimed-Outcome_example :
    let (r, w) = dispatch_claimed service claimed request empty in
    Outcome claimed ("fake", request) empty.sent r w.sent
unfolding check_intent require_text is_blank result_fits
dispatch_claimed-Outcome_example = dispatch_claimed-Outcome service claimed request empty refl refl

abbrev stale : MessageRequest
stale = record request { correlation_id = "c-0" }

c0_ne_c1 : ◌≢◌ {A = String} "c-0" "c-1"
c0_ne_c1 = ground (arith, eq_iff "c-0" "c-1")

mismatched_dispatch_example :
    ((dispatch_claimed service claimed stale empty).0 ≡ err Error.value_error)
    × ((dispatch_claimed service claimed stale empty).1.sent ≡ ("fake", stale) ∷ [])
unfolding check_intent require_text is_blank result_fits check_send_result gateway_send
    require_optional_text get find_provider accept_reply invoke
mismatched_dispatch_example =
    mismatched_dispatch service claimed stale empty (accepted stale) refl refl refl c0_ne_c1

-- A second provider is registered beside the first, the first one is refused.
abbrev other : Provider Repository
other = record { key = "other"; send = λ q e. (Reply.raised Error.provider_not_found, e) }

abbrev third : Provider Repository
third = record { key = "third"; send = λ q e. (Reply.invalid, e) }

abbrev both : ProviderRegistry Repository
both = providers ++ (("other", other) ∷ [])

registered : register providers "other" other ≡ ok both
unfolding register validate_key find_provider is_blank
registered = refl

register-get_example :
    (get providers "other" ≡ err Error.provider_not_found)
    × (other.key ≡ "other")
    × (get both "other" ≡ ok other)
    × ((j : String) → j ≢ "other" → get both j ≡ get providers j)
register-get_example = register-get providers "other" other registered

register_twice_example :
    let r = register_all both (("other", fake) ∷ ("third", third) ∷ []) in
    (get r "other" ≡ ok other)
    × ((q : Provider Repository) → register r "other" q ≡ err Error.duplicate_provider)
register_twice_example =
    register_twice providers "other" other registered (("other", fake) ∷ ("third", third) ∷ [])

-- The second of two providers is selected.
gateway_send_lem_example :
    let (r, w) = gateway_send both "other" request empty in
    ((is_blank "other" ≡ true) ⊎ (elem "other" (keys both) ≡ false))
      × (r ≡ err Error.provider_not_found)
      × (w ≡ empty)
    ⊎ (p : Provider Repository) × Selected "other" p both × Called "other" request empty p r w
gateway_send_lem_example = gateway_send_lem both "other" request empty

-- An intent whose message was accepted.
abbrev stored : DispatchResult
stored = record {
  intent_id = "i-1";
  provider_key = "fake";
  disposition = SendDisposition.accepted;
  correlation_id = "c-1";
  provider_message_id = some "m-1";
  provider_status = none;
  error = none;
  idempotent_replay = false;
}

-- The claimed intent in the repository.
abbrev ready : World Repository
ready = record empty {
  env = record {
    by_scope = (("flow", "k-1"), claimed) ∷ [];
    scope_by_id = ("i-1", ("flow", "k-1")) ∷ [];
    events = [];
  };
}

dispatched : (dispatch_claimed service claimed request ready).0 ≡ ok stored
unfolding dispatch_claimed finish_attempt complete_claimed_intent gateway_send get find_provider
    invoke accept_reply attempt_result from_provider_result check_dispatch_result replace_result
    check_intent result_fits settle_completion require_text require_optional_text is_blank is_space
    complete complete_known complete_at scope_at intent_at store_checked store
dispatched = let kept = stored_with claimed stored in rw ((intent_eq_iff kept kept).1 refl) refl

dispatch_replayed_example :
    (replace_result claimed IntentState.accepted stored ≡ ok (stored_with claimed stored))
    × ((recipient : String) (purpose : Option String) (transient : Option MessageRequest)
          (later : World Repository)
        → continue_intent service (stored_with claimed stored) "f" recipient purpose transient later
          ≡ (ok (record stored { idempotent_replay = true }), later))
dispatch_replayed_example = dispatch_replayed service claimed request ready stored dispatched
