-- ===== src/Service/Consistent.antt =====
-- A dispatch whose request carries the correlation of the claimed intent, and one whose request
-- does not.
use healthassure_messaging.Base.{
  String, ◌≡◌, ◌≢◌, refl, ◌∙◌, inl, inr, Bool, true, false, none, some, ◌∷◌, arith, eq_refl,
}
use healthassure_messaging.Base.Text.{is_blank}
use healthassure_messaging.Enums.{SendDisposition, terminal_state, state_eq, is_terminal}
use healthassure_messaging.Errors.{Error, Result, ok, err, require_text, require_optional_text}
use healthassure_messaging.Contracts.{MessageRequest, SendResult, NormalizedError}
use healthassure_messaging.ServiceContracts.{
  DispatchResult, MessageIntent, check_dispatch_result, check_intent, replace_result, result_fits,
}
use healthassure_messaging.Errors.Checks.{Checks}
use healthassure_messaging.ServiceContracts.Checks.{check_dispatch_result-Checks}
use healthassure_messaging.Provider.{World, gateway_send}
use healthassure_messaging.Provider.Gateway.{gateway_send_cases}
use healthassure_messaging.Service.Settling.{Settled, complete_claimed_intent-Settled}
use healthassure_messaging.Service.Effects.{Sent}
use healthassure_messaging.Service.Safety.{complete_claimed_intent-Quiet}
use healthassure_messaging.Service.{
  MessagingService, complete_claimed_intent, finish_attempt, dispatch_claimed, attempt_result,
  from_provider_result, unknown_result, local_result, unknown_error, unavailable_error,
}

-- An intent that its constructor accepts.
abbrev pub IsValid : MessageIntent → Type 0
IsValid i = check_intent i ≡ ok i

-- A result for the intent.
pub record Fits (i : MessageIntent) (r : DispatchResult) : Type 0 where
  pub id : r.intent_id ≡ i.intent_id
  pub provider : r.provider_key ≡ i.provider_key
  pub correlation : r.correlation_id ≡ i.correlation_id

pub valid_texts :
    (i : MessageIntent)
    → IsValid i
    → (require_text i.intent_id ≡ ok i.intent_id)
      × (require_text i.provider_key ≡ ok i.provider_key)
      × (require_text i.correlation_id ≡ ok i.correlation_id)
unfolding check_intent require_text
valid_texts i h = ground arith

state_eq_refl :
    (d : SendDisposition)
    → (state_eq (terminal_state d) (terminal_state d) ≡ true)
      × (is_terminal (terminal_state d) ≡ true)
state_eq_refl SendDisposition.accepted = (refl, refl)
state_eq_refl SendDisposition.rejected = (refl, refl)
state_eq_refl SendDisposition.unknown = (refl, refl)

stored-Fits :
    (i : MessageIntent) (r : DispatchResult)
    → Fits i r
    → result_fits (record i { state = terminal_state r.disposition; result = some r }) (some r)
      ≡ true
unfolding result_fits
stored-Fits i r f = rw (
  f.id,
  f.provider,
  f.correlation,
  eq_refl,
  eq_refl,
  eq_refl,
  (state_eq_refl r.disposition).0,
  (state_eq_refl r.disposition).1,
)

replace_result-ok :
    (i : MessageIntent) (r : DispatchResult)
    → IsValid i
    → Fits i r
    → replace_result i (terminal_state r.disposition) r
      ≡ ok (record i { state = terminal_state r.disposition; result = some r })
unfolding replace_result check_intent require_text
replace_result-ok i r v f = ground (arith, stored-Fits i r f)

local_result-ok :
    (i : MessageIntent) (d : SendDisposition) (e : NormalizedError)
    → IsValid i
    → check_dispatch_result (local_result i d none e) ≡ ok (local_result i d none e)
unfolding check_dispatch_result require_text require_optional_text
local_result-ok i d e v = ground (arith, valid_texts i v)

provider_result-ok :
    (i : MessageIntent)
    → IsValid i
    → check_dispatch_result
        (local_result i SendDisposition.rejected (some "provider_not_registered") unavailable_error)
      ≡ ok (
          local_result i SendDisposition.rejected
            (some "provider_not_registered")
            unavailable_error)
unfolding check_dispatch_result require_text require_optional_text is_blank
provider_result-ok i v = ground (arith, valid_texts i v)

-- The `try` statement gives a result for the intent.
record Attempted (i : MessageIntent) (invoked : Bool) (o : Result (DispatchResult × Bool))
    : Type 0 where
  result : DispatchResult
  equation : o ≡ ok (result, invoked)
  fits : Fits i result

unknown-Attempted : (i : MessageIntent) → IsValid i → Attempted i true (unknown_result i)
unknown-Attempted i v = record {
  result = local_result i SendDisposition.unknown none unknown_error;
  equation = rw (local_result-ok i SendDisposition.unknown unknown_error v);
  fits = record { id = refl; provider = refl; correlation = refl };
}

returned-Attempted :
    (i : MessageIntent) (r : DispatchResult) (m : Result DispatchResult)
    → IsValid i
    → Fits i r
    → Checks r m
    → Attempted i true (elim m [ ok x ↦ ok (x, true) | err e ↦ unknown_result i ])
returned-Attempted i r (ok x) v f c = record {
  result = r;
  equation = rw (c.returns x refl);
  fits = f;
}
returned-Attempted i r (err e) v f c = unknown-Attempted i v

attempt-Attempted :
    (i : MessageIntent) (pr : Result SendResult)
    → IsValid i
    → ((sr : SendResult)
        → pr ≡ ok sr
        → (sr.provider_key ≡ i.provider_key) × (sr.correlation_id ≡ i.correlation_id))
    → pr ≢ err Error.provider_not_found
    → Attempted i true (attempt_result i pr)
unfolding attempt_result from_provider_result
attempt-Attempted i (ok sr) v h ne =
    returned-Attempted i _ _ v
      (record { id = refl; provider = (h sr refl).0; correlation = (h sr refl).1 })
      (check_dispatch_result-Checks _)
attempt-Attempted i (err Error.provider_not_found) v h ne = absurd (ne refl)
attempt-Attempted i (err e) v h ne = unknown-Attempted i v

abbrev missing_result : MessageIntent → DispatchResult
missing_result i =
    local_result i SendDisposition.rejected (some "provider_not_registered") unavailable_error

missing-Fits : (i : MessageIntent) → Fits i (missing_result i)
missing-Fits i = record { id = refl; provider = refl; correlation = refl }

missing-equation :
    (i : MessageIntent)
    → IsValid i
    → attempt_result i (err Error.provider_not_found) ≡ ok (missing_result i, false)
unfolding attempt_result
missing-equation i v = rw (provider_result-ok i v)

-- How a dispatch of the intent `i` by the call `call` ends. A result belongs to the intent, and if
-- the provider was not called it is a rejection. The two exceptions tell whether it was called.
pub data Outcome (i : MessageIntent) (call : String × MessageRequest) (before : Sent)
    (o : Result DispatchResult) (after : Sent) : Type 0 where
  sent :
      (d : DispatchResult)
      → o ≡ ok d
      → Fits i d
      → after ≡ call ∷ before
      → Outcome i call before o after
  unsent :
      (d : DispatchResult)
      → o ≡ ok d
      → Fits i d
      → d.disposition ≡ SendDisposition.rejected
      → after ≡ before
      → Outcome i call before o after
  uncertain :
      o ≡ err Error.post_dispatch_persistence
      → after ≡ call ∷ before
      → Outcome i call before o after
  failed : o ≡ err Error.service_dependency → after ≡ before → Outcome i call before o after

module _ {E : Type 0} (s : MessagingService E) (i : MessageIntent) (q : MessageRequest) where
  settled :
      (r : DispatchResult) (invoked : Bool) (w : World E)
      → IsValid i
      → Fits i r
      → Settled r invoked (complete_claimed_intent s i r invoked w).0
  settled r invoked w v f =
      complete_claimed_intent-Settled s i r invoked w (replace_result-ok i r v f) refl

  called :
      (w w' : World E) (o : Result (DispatchResult × Bool))
      → IsValid i
      → Attempted i true o
      → w'.sent ≡ (i.provider_key, q) ∷ w.sent
      → Outcome i
          (i.provider_key, q)
          w.sent
          (finish_attempt s i o w').0
          (finish_attempt s i o w').1.sent
  unfolding finish_attempt
  called w w' o v a g =
      let same = (complete_claimed_intent-Quiet s i a.result true).same w' ∙ g in
      rw a.equation (elim (settled a.result true w' v a.fits) [
        | inl e ↦ sent a.result e a.fits same
        | inr e ↦ uncertain e same
      ])

  uncalled :
      (w : World E)
      → IsValid i
      → let o = attempt_result i (err Error.provider_not_found) in
        Outcome i
          (i.provider_key, q)
          w.sent
          (finish_attempt s i o w).0
          (finish_attempt s i o w).1.sent
  unfolding finish_attempt
  uncalled w v =
      let a = missing_result i in
      let same = (complete_claimed_intent-Quiet s i a false).same w in
      rw (missing-equation i v) (elim (settled a false w v (missing-Fits i)) [
        | inl e ↦ unsent a e (missing-Fits i) refl same
        | inr e ↦ failed e same
      ])

  -- For a valid intent and a request that carries its correlation, a dispatch has one of the four
  -- ends of `Outcome`.
  pub dispatch_claimed-Outcome :
      (w : World E)
      → IsValid i
      → q.correlation_id ≡ i.correlation_id
      → Outcome i
          (i.provider_key, q)
          w.sent
          (dispatch_claimed s i q w).0
          (dispatch_claimed s i q w).1.sent
  unfolding dispatch_claimed finish_attempt
  dispatch_claimed-Outcome w v c =
      let out = gateway_send s.providers i.provider_key q w in
      let lem = gateway_send_cases s.providers i.provider_key q w in
      elim lem.0 [
        | inl (missing, same) ↦ rw (missing, same, dispatch_claimed) (uncalled w v)
        | inr (found, grew) ↦
            called w out.1 (attempt_result i out.0) v
              (attempt-Attempted i out.0 v (λ sr e. ((lem.1 sr e).0, (lem.1 sr e).1 ∙ c)) found)
              grew
      ]
