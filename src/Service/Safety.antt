-- ===== src/Service/Safety.antt =====
-- The provider is called at most once for each send, and where the call may have happened the
-- caller is told.
use healthassure_messaging.Base.{
  String, ◌≡◌, ◌≢◌, refl, ◌∙◌, inl, inr, Bool, true, false, Option, none, some, ◌==◌, arith,
}
use mathlib.Core.Path.{subst}
use healthassure_messaging.Enums.{IntentState}
use healthassure_messaging.Errors.{Error, Result, ok, err}
use healthassure_messaging.Contracts.{MessageRequest, SendResult}
use healthassure_messaging.ServiceContracts.{DispatchResult, MessageIntent}
use healthassure_messaging.Errors.Checks.{Checks}
use healthassure_messaging.ServiceContracts.Checks.{check_dispatch_result-Checks}
use healthassure_messaging.Provider.{World, gateway_send}
use healthassure_messaging.Provider.Gateway.{gateway_send_cases}
use healthassure_messaging.Service.{
  MessagingService, get_intent, create_intent, claim_intent, complete_intent, resolve_claim_race,
  session_eligible, is_policy_eligible, rejection_outcome, complete_local_rejection,
  complete_claimed_intent, dispatch_claimed, claim_outcome, continue_pending, continue_from,
  finish_attempt, continue_intent, attempt_result, flagged, from_provider_result, unknown_result,
}
use healthassure_messaging.Service.Settling.{complete_claimed_intent_cases}
use healthassure_messaging.Service.Monad.{lift}
use healthassure_messaging.Service.Effects.{
  Sent, Grew, Effect, Effect-still, Quiet, Quiet-lift, Sends, Sends-Quiet, Sends-if, quiet_rules,
  sends_rules,
}

-- What the `try` statement of `_dispatch_claimed` may end with.
record Attempts (invoked : Bool) (o : Result (DispatchResult × Bool)) : Type 0 where
  result :
      (r : DispatchResult) (b : Bool)
      → o ≡ ok (r, b)
      → (b ≡ invoked) × (r.idempotent_replay ≡ false)
  raises : (e : Error) → o ≡ err e → e ≡ Error.value_error

flagged-Attempts :
    (invoked : Bool) (r : DispatchResult) (m : Result DispatchResult)
    → r.idempotent_replay ≡ false
    → Checks r m
    → Attempts invoked (flagged invoked m)
flagged-Attempts invoked r (ok x) p c = record {
  result = λ y b h. ground (arith, c.returns x refl);
  raises = λ e h. cc;
}
flagged-Attempts invoked r (err x) p c = record {
  result = λ y b h. cc;
  raises = λ e h. ground (arith, c.raises x refl);
}

unknown_result-Attempts : (i : MessageIntent) → Attempts true (unknown_result i)
unknown_result-Attempts i = flagged-Attempts true _ _ refl (check_dispatch_result-Checks _)

returned-Attempts :
    (i : MessageIntent) (r : DispatchResult) (m : Result DispatchResult)
    → r.idempotent_replay ≡ false
    → Checks r m
    → Attempts true (elim m [ ok x ↦ ok (x, true) | err e ↦ unknown_result i ])
returned-Attempts i r (ok x) p c = flagged-Attempts true r (ok x) p c
returned-Attempts i r (err e) p c = unknown_result-Attempts i

attempt_result-Attempts :
    (i : MessageIntent) (pr : Result SendResult)
    → pr ≢ err Error.provider_not_found
    → Attempts true (attempt_result i pr)
unfolding attempt_result from_provider_result
attempt_result-Attempts i (ok pr) h = returned-Attempts i _ _ refl (check_dispatch_result-Checks _)
attempt_result-Attempts i (err Error.provider_not_found) h = absurd (h refl)
attempt_result-Attempts i (err e) h = unknown_result-Attempts i

module _ {E : Type 0} (s : MessagingService E) where
  pub get_intent-Quiet : (f k : String) → Quiet (get_intent s f k)
  unfolding get_intent
  get_intent-Quiet f k = search quiet_rules

  pub create_intent-Quiet : (i : MessageIntent) → Quiet (create_intent s i)
  unfolding create_intent
  create_intent-Quiet i = search quiet_rules

  claim_intent-Quiet : (k : String) → Quiet (claim_intent s k)
  unfolding claim_intent
  claim_intent-Quiet k = search quiet_rules

  complete_intent-Quiet :
      (k : String) (st : IntentState) (r : DispatchResult) → Quiet (complete_intent s k st r)
  unfolding complete_intent
  complete_intent-Quiet k st r = search quiet_rules

  resolve_claim_race-Quiet : (i : MessageIntent) → Quiet (resolve_claim_race s i)
  unfolding resolve_claim_race
  resolve_claim_race-Quiet i = search (quiet_rules, get_intent-Quiet)

  session_eligible-Quiet : (r : String) (p : Option String) → Quiet (session_eligible s r p)
  unfolding session_eligible
  session_eligible-Quiet r none = search quiet_rules
  session_eligible-Quiet r (some p) = search quiet_rules

  is_policy_eligible-Quiet : (r : String) (p : Option String) → Quiet (is_policy_eligible s r p)
  unfolding is_policy_eligible
  is_policy_eligible-Quiet r p = search (quiet_rules, session_eligible-Quiet)

  rejection_outcome-Quiet :
      (i : MessageIntent) (c : Option MessageIntent) → Quiet (rejection_outcome s i c)
  unfolding rejection_outcome
  rejection_outcome-Quiet i none = resolve_claim_race-Quiet i
  rejection_outcome-Quiet i (some c) = search quiet_rules

  complete_local_rejection-Quiet : (i : MessageIntent) → Quiet (complete_local_rejection s i)
  unfolding complete_local_rejection
  complete_local_rejection-Quiet i =
      search (quiet_rules, complete_intent-Quiet, rejection_outcome-Quiet)

  pub complete_claimed_intent-Quiet :
      (i : MessageIntent) (r : DispatchResult) (b : Bool) → Quiet (complete_claimed_intent s i r b)
  unfolding complete_claimed_intent
  complete_claimed_intent-Quiet i r b = search quiet_rules

  -- After a call of the provider.
  invoked-Effect :
      (i : MessageIntent) (r : DispatchResult) (before : Sent) (w : World E)
      → r.idempotent_replay ≡ false
      → Grew before w.sent
      → Effect before
          (complete_claimed_intent s i r true w).0
          (complete_claimed_intent s i r true w).1.sent
  invoked-Effect i r before w p g =
      let same = (complete_claimed_intent-Quiet i r true).same w in
      let cases = complete_claimed_intent_cases s i r true w in
      record {
        once = inr (g.0, same ∙ g.1);
        replayed = λ d h rep. absurd (ground (arith, cases));
        refused = λ e h np nv. absurd (ground (arith, cases));
      }

  finish_attempt-Effect :
      (i : MessageIntent) (o : Result (DispatchResult × Bool)) (before : Sent) (w : World E)
      → Attempts true o
      → Grew before w.sent
      → Effect before (finish_attempt s i o w).0 (finish_attempt s i o w).1.sent
  unfolding finish_attempt
  finish_attempt-Effect i (ok (r, true)) before w a g =
      invoked-Effect i r before w (a.result r true refl).1 g
  finish_attempt-Effect i (ok (r, false)) before w a g = absurd (cc ((a.result r false refl).0))
  finish_attempt-Effect i (err e) before w a g = record {
    once = inr g;
    replayed = λ d h. cc;
    refused = λ x h np nv. absurd (nv (ground (arith, a.raises e refl)));
  }

  finish_missing-Effect :
      (i : MessageIntent) (o : Result (DispatchResult × Bool)) (w : World E)
      → Effect w.sent (finish_attempt s i o w).0 (finish_attempt s i o w).1.sent
  unfolding finish_attempt
  finish_missing-Effect i (ok (r, b)) w =
      Effect-still _ ((complete_claimed_intent-Quiet i r b).same w)
  finish_missing-Effect i (err e) w = Effect-still _ refl

  dispatch_claimed-Sends : (i : MessageIntent) (q : MessageRequest) → Sends (dispatch_claimed s i q)
  unfolding dispatch_claimed finish_attempt
  dispatch_claimed-Sends i q = record {
    at = λ w.
        let out = gateway_send s.providers i.provider_key q w in
        elim (gateway_send_cases s.providers i.provider_key q w).0 [
          | inl (missing, same) ↦
              let o = attempt_result i out.0 in
              subst
                (λ (x : World E).
                  Effect x.sent (finish_attempt s i o out.1).0 (finish_attempt s i o out.1).1.sent)
                same (finish_missing-Effect i o out.1)
          | inr (found, grew) ↦
              finish_attempt-Effect i (attempt_result i out.0) w.sent out.1
                (attempt_result-Attempts i out.0 found) ((i.provider_key, q), grew)
        ];
  }

  claim_outcome-Sends :
      (i : MessageIntent) (q : MessageRequest) (c : Option MessageIntent)
      → Sends (claim_outcome s i q c)
  unfolding claim_outcome
  claim_outcome-Sends i q none = Sends-Quiet (resolve_claim_race s i) (resolve_claim_race-Quiet i)
  claim_outcome-Sends i q (some c) = dispatch_claimed-Sends c q

  local_rejection-Sends : (i : MessageIntent) → Sends (complete_local_rejection s i)
  local_rejection-Sends i =
      Sends-Quiet (complete_local_rejection s i) (complete_local_rejection-Quiet i)

  continue_pending-Sends :
      (i : MessageIntent) (r : String) (p : Option String) (t : Option MessageRequest)
      → Sends (continue_pending s i r p t)
  unfolding continue_pending
  continue_pending-Sends i r p t =
      search
        (
          sends_rules, claim_intent-Quiet, is_policy_eligible-Quiet, claim_outcome-Sends,
          local_rejection-Sends,
        )
        depth 9

  continue_from-Sends :
      (st : IntentState) (i : MessageIntent) (r : String) (p : Option String)
      (t : Option MessageRequest)
      → Sends (continue_from s st i r p t)
  unfolding continue_from
  continue_from-Sends IntentState.pending i r p t = continue_pending-Sends i r p t
  continue_from-Sends IntentState.dispatching i r p t = Sends-Quiet (lift _) (Quiet-lift _)
  continue_from-Sends _ i r p t = Sends-Quiet (lift _) (Quiet-lift _)

  pub continue_intent-Sends :
      (i : MessageIntent) (f r : String) (p : Option String) (t : Option MessageRequest)
      → Sends (continue_intent s i f r p t)
  unfolding continue_intent
  continue_intent-Sends i f r p t =
      Sends-if (i.request_fingerprint == f) (continue_from s i.state i r p t)
        (lift (err Error.idempotency_conflict)) (continue_from-Sends i.state i r p t)
        (Sends-Quiet (lift _) (Quiet-lift _))
