-- ===== src/Service/Mismatch.antt =====
-- A dispatch whose restored request does not carry the correlation of the claimed intent.
use healthassure_messaging.Base.{
  ◌≡◌, ◌≢◌, refl, sym, ◌∙◌, inl, inr, true, false, ◌∷◌, arith, eq_iff,
}
use healthassure_messaging.Enums.{terminal_state}
use healthassure_messaging.Errors.{Error, ok, err, require_text, require_optional_text}
use healthassure_messaging.Contracts.{MessageRequest, SendResult, check_send_result}
use healthassure_messaging.ServiceContracts.{
  DispatchResult, MessageIntent, check_dispatch_result, check_intent, replace_result, result_fits,
}
use healthassure_messaging.Provider.{World, gateway_send}
use healthassure_messaging.Provider.Gateway.{gateway_send_cases}
use healthassure_messaging.Service.{
  MessagingService, complete_claimed_intent, finish_attempt, dispatch_claimed, attempt_result,
  from_provider_result,
}
use healthassure_messaging.Service.Consistent.{IsValid, valid_texts}

-- `_from_provider_result` before its constructor's tests.
abbrev provided : MessageIntent → SendResult → DispatchResult
provided i sr = record {
  intent_id = i.intent_id;
  provider_key = sr.provider_key;
  disposition = sr.disposition;
  correlation_id = sr.correlation_id;
  provider_message_id = sr.provider_message_id;
  provider_status = sr.provider_status;
  error = sr.error;
  idempotent_replay = false;
}

provided-ok :
    (i : MessageIntent) (sr : SendResult)
    → IsValid i
    → check_send_result sr ≡ ok sr
    → check_dispatch_result (provided i sr) ≡ ok (provided i sr)
unfolding check_dispatch_result check_send_result check_intent require_text require_optional_text
provided-ok i sr v h = ground (arith, valid_texts i v)

rejected_correlation :
    (i : MessageIntent) (r : DispatchResult)
    → r.correlation_id ≢ i.correlation_id
    → replace_result i (terminal_state r.disposition) r ≡ err Error.value_error
unfolding replace_result check_intent require_text result_fits
rejected_correlation i r ne = ground (arith, eq_iff r.correlation_id i.correlation_id)

module _ {E : Type 0} (s : MessagingService E) (i : MessageIntent) (q : MessageRequest)
    (w : World E) (sr : SendResult) (v : IsValid i) (checked : check_send_result sr ≡ ok sr)
    (answered : (gateway_send s.providers i.provider_key q w).0 ≡ ok sr)
    (differs : q.correlation_id ≢ i.correlation_id) where
  attempted :
      attempt_result i (gateway_send s.providers i.provider_key q w).0 ≡ ok (provided i sr, true)
  unfolding attempt_result from_provider_result
  attempted = rw answered (rw (provided-ok i sr v checked, attempt_result))

  sent_once : (gateway_send s.providers i.provider_key q w).1.sent ≡ (i.provider_key, q) ∷ w.sent
  sent_once = elim (gateway_send_cases s.providers i.provider_key q w).0 [
    | inl (missing, same) ↦ absurd (cc)
    | inr (found, grew) ↦ grew
  ]

  correlation_differs : sr.correlation_id ≢ i.correlation_id
  correlation_differs e =
      differs (sym ((gateway_send_cases s.providers i.provider_key q w).1 sr answered).1 ∙ e)

  -- Where the claimed intent is one that its constructor accepts, and the gateway returns a result
  -- that its own constructor accepts, for a request of another correlation than the intent's, a
  -- dispatch raises ValueError after one call of the provider.
  pub mismatched_dispatch :
      ((dispatch_claimed s i q w).0 ≡ err Error.value_error)
      × ((dispatch_claimed s i q w).1.sent ≡ (i.provider_key, q) ∷ w.sent)
  unfolding dispatch_claimed finish_attempt complete_claimed_intent
  mismatched_dispatch = (
    rw (attempted, dispatch_claimed)
        (rw (rejected_correlation i (provided i sr) correlation_differs) refl),
    rw (attempted, dispatch_claimed)
        (rw (rejected_correlation i (provided i sr) correlation_differs) sent_once),
  )
