-- ===== src/Service/Settling.antt =====
-- How the completion of a claimed intent ends.
use healthassure_messaging.Base.{◌≡◌, refl, ◌∙◌, ap, ◌⊎◌, inl, inr, Bool, Option, some, Bool-cases}
use healthassure_messaging.Enums.{IntentState, terminal_state}
use healthassure_messaging.Errors.{Error, Result, ok, err}
use healthassure_messaging.ServiceContracts.{
  DispatchResult, MessageIntent, check_intent, replace_result,
}
use healthassure_messaging.ServiceContracts.Equality.{intent_eq, intent_eq_iff}
use healthassure_messaging.Errors.Checks.{Checks}
use healthassure_messaging.ServiceContracts.Checks.{check_intent-Checks}
use healthassure_messaging.Provider.{Reply, World}
use healthassure_messaging.Service.{
  MessagingService, complete_claimed_intent, settle_completion, unconfirmed,
}
use healthassure_messaging.Service.Monad.{Action, lift, ask, then_run, ◌>>=◌}

-- A completion is confirmed, and returns the result it was given, or it is not.
abbrev pub Settled : DispatchResult → Bool → Result DispatchResult → Type 0
Settled r invoked o = (o ≡ ok r) ⊎ (o ≡ err (unconfirmed invoked))

pub settle_completion-Settled :
    (r : DispatchResult) (invoked : Bool) (expected : MessageIntent)
    (reply : Reply (Option MessageIntent))
    → expected.result ≡ some r
    → Settled r invoked (settle_completion expected invoked reply)
unfolding settle_completion
settle_completion-Settled r invoked expected (Reply.value (some c)) p =
    elim (Bool-cases (intent_eq c expected)) [
      | inl e ↦
          let q = ap (λ (i : MessageIntent). i.result) ((intent_eq_iff c expected).0 e) ∙ p in
          rw (e, q) (inl refl)
      | inr e ↦ rw e (inr refl)
    ]
settle_completion-Settled r invoked expected _ p = inr refl

module _ {E : Type 0} (s : MessagingService E) (i : MessageIntent) (r : DispatchResult)
    (invoked : Bool) (w : World E) where
  finish : MessageIntent → Action E DispatchResult
  finish expected = ask (s.ports.complete i.intent_id IntentState.dispatching r) >>= λ reply.
      lift (settle_completion expected invoked reply)

  finish-Settled : (x : MessageIntent) → x.result ≡ some r → Settled r invoked (finish x w).0
  unfolding finish
  finish-Settled x p =
      settle_completion-Settled r invoked x
        (s.ports.complete i.intent_id IntentState.dispatching r w.env).0 p

  -- Where the constructor accepts the completed intent, nothing but the completion's own error is
  -- raised.
  pub complete_claimed_intent-Settled :
      {x : MessageIntent}
      → replace_result i (terminal_state r.disposition) r ≡ ok x
      → x.result ≡ some r
      → Settled r invoked (complete_claimed_intent s i r invoked w).0
  unfolding complete_claimed_intent finish
  complete_claimed_intent-Settled {x = x} e p = rw e (finish-Settled x p)

  then_run-Settled :
      (m : Result MessageIntent) (x : MessageIntent)
      → Checks x m
      → x.result ≡ some r
      → Settled r invoked (then_run finish m w).0
        ⊎ ((then_run finish m w).0 ≡ err Error.value_error)
  then_run-Settled (ok y) x c p =
      inl (finish-Settled y (ap (λ (z : MessageIntent). z.result) (c.returns y refl) ∙ p))
  then_run-Settled (err e) x c p = inr (ap err (c.raises e refl))

  -- In general ValueError may be raised as well.
  pub complete_claimed_intent_cases :
      Settled r invoked (complete_claimed_intent s i r invoked w).0
      ⊎ ((complete_claimed_intent s i r invoked w).0 ≡ err Error.value_error)
  unfolding complete_claimed_intent replace_result finish
  complete_claimed_intent_cases =
      let x = record i { state = terminal_state r.disposition; result = some r } in
      then_run-Settled (check_intent x) x (check_intent-Checks x) refl
