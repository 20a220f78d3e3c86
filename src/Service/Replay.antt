-- ===== src/Service/Replay.antt =====
-- `_continue_intent` of src/healthassure_messaging/service.py on intents that another call has begun or
-- finished.
use healthassure_messaging.Base.{
  String, ◌≡◌, refl, sym, ap, ◌∙◌, inl, inr, Bool, true, false, Option, some, arith, eq_refl,
}
use mathlib.Core.Path.{subst}
use healthassure_messaging.Enums.{SendDisposition, IntentState, is_terminal, terminal_state}
use healthassure_messaging.Errors.{Error, Result, ok, err, Result-cases}
use healthassure_messaging.Contracts.{MessageRequest, SendResult}
use healthassure_messaging.ServiceContracts.{
  DispatchResult, MessageIntent, check_dispatch_result, replace_result,
}
use healthassure_messaging.ServiceContracts.Checks.{
  check_dispatch_result-Checks, check_intent-Checks,
}
use healthassure_messaging.Provider.{World, gateway_send}
use healthassure_messaging.Service.{
  MessagingService, terminal_replay, continue_from, continue_intent, attempt_result, flagged,
  unknown_result, from_provider_result, complete_claimed_intent, finish_attempt, dispatch_claimed,
}
use healthassure_messaging.Service.Settling.{complete_claimed_intent-Settled}

replay_valid :
    (r : DispatchResult)
    → check_dispatch_result r ≡ ok r
    → check_dispatch_result (record r { idempotent_replay = true })
      ≡ ok (record r { idempotent_replay = true })
unfolding check_dispatch_result
replay_valid r h = ground arith

module _ {E : Type 0} (s : MessagingService E) (i : MessageIntent) where
  from_terminal :
      (st : IntentState) (r : DispatchResult)
      → is_terminal st ≡ true
      → i.result ≡ some r
      → check_dispatch_result r ≡ ok r
      → (recipient : String) (purpose : Option String) (q : Option MessageRequest) (w : World E)
      → continue_from s st i recipient purpose q w ≡ (ok (record r { idempotent_replay = true }), w)
  unfolding continue_from terminal_replay
  from_terminal IntentState.pending r t e v recipient purpose q w = absurd (cc t)
  from_terminal IntentState.dispatching r t e v recipient purpose q w = absurd (cc t)
  from_terminal IntentState.accepted r t e v recipient purpose q w = rw (e, replay_valid r v) refl
  from_terminal IntentState.rejected r t e v recipient purpose q w = rw (e, replay_valid r v) refl
  from_terminal IntentState.unknown r t e v recipient purpose q w = rw (e, replay_valid r v) refl

  continue_finished :
      (r : DispatchResult) (recipient : String) (purpose : Option String)
      (q : Option MessageRequest) (w : World E)
      → is_terminal i.state ≡ true
      → i.result ≡ some r
      → check_dispatch_result r ≡ ok r
      → continue_intent s i i.request_fingerprint recipient purpose q w
        ≡ (ok (record r { idempotent_replay = true }), w)
  unfolding continue_intent
  continue_finished r recipient purpose q w t e v =
      rw (eq_refl, continue_intent) (from_terminal i.state r t e v recipient purpose q w)

-- What is stored with a result that a dispatch returned.
abbrev pub stored_with : MessageIntent → DispatchResult → MessageIntent
stored_with i r = record i { state = terminal_state r.disposition; result = some r }

terminal_always : (d : SendDisposition) → is_terminal (terminal_state d) ≡ true
terminal_always SendDisposition.accepted = refl
terminal_always SendDisposition.rejected = refl
terminal_always SendDisposition.unknown = refl

-- A result that the constructor has made is one that it accepts.
made_valid :
    (r x : DispatchResult) → check_dispatch_result r ≡ ok x → check_dispatch_result x ≡ ok x
made_valid r x h =
    subst (λ y. check_dispatch_result y ≡ ok x) (sym ((check_dispatch_result-Checks r).returns x h))
      h

flagged_valid :
    (b : Bool) (y : DispatchResult) (m : Result DispatchResult)
    → check_dispatch_result y ≡ m
    → (r : DispatchResult) (c : Bool) → flagged b m ≡ ok (r, c)
    → check_dispatch_result r ≡ ok r
flagged_valid b y (ok x) p r c h = made_valid y r (ground (arith, p))
flagged_valid b y (err e) p r c h = cc

returned_valid :
    (i : MessageIntent) (y : DispatchResult) (m : Result DispatchResult)
    → check_dispatch_result y ≡ m
    → (r : DispatchResult) (c : Bool)
    → ◌≡◌ {A = Result (DispatchResult × Bool)}
        (elim m [ ok x ↦ ok (x, true) | err e ↦ unknown_result i ])
        (ok (r, c))
    → check_dispatch_result r ≡ ok r
returned_valid i y (ok x) p r c h = made_valid y r (ground (arith, p))
returned_valid i y (err e) p r c h = flagged_valid true _ _ refl r c h

attempt_valid :
    (i : MessageIntent) (pr : Result SendResult) (r : DispatchResult) (c : Bool)
    → attempt_result i pr ≡ ok (r, c)
    → check_dispatch_result r ≡ ok r
unfolding attempt_result from_provider_result
attempt_valid i (ok sr) r c h = returned_valid i _ _ refl r c h
attempt_valid i (err Error.provider_not_found) r c h = flagged_valid false _ _ refl r c h
attempt_valid i (err e) r c h = flagged_valid true _ _ refl r c h

replaced :
    (i x : MessageIntent) (r : DispatchResult)
    → replace_result i (terminal_state r.disposition) r ≡ ok x
    → x ≡ stored_with i r
unfolding replace_result
replaced i x r h = (check_intent-Checks (stored_with i r)).returns x h

module _ {E : Type 0} (s : MessagingService E) (i : MessageIntent) where
  not_completed :
      (r : DispatchResult) (b : Bool) (w : World E) {x : Error}
      → replace_result i (terminal_state r.disposition) r ≡ err x
      → (complete_claimed_intent s i r b w).0 ≡ err x
  unfolding complete_claimed_intent
  not_completed r b w e = rw e refl

  -- A completion that returns has been given an intent that its constructor accepts.
  completed_with :
      (r d : DispatchResult) (b : Bool) (w : World E)
      → (complete_claimed_intent s i r b w).0 ≡ ok d
      → (replace_result i (terminal_state r.disposition) r ≡ ok (stored_with i r)) × (r ≡ d)
  completed_with r d b w h =
      elim (Result-cases (replace_result i (terminal_state r.disposition) r)) [
        | inl (x, e) ↦
            let stored : replace_result i (terminal_state r.disposition) r ≡ ok (stored_with i r) =
              e ∙ ap ok (replaced i x r e) in
            (
              stored,
              elim (complete_claimed_intent-Settled s i r b w stored refl) [
                | inl given ↦ cc (given, h)
                | inr raised ↦ absurd (cc (raised, h))
              ],
            )
        | inr (x, e) ↦ absurd (cc (not_completed r b w e, h))
      ]

  finished_with :
      (o : Result (DispatchResult × Bool)) (d : DispatchResult) (w : World E)
      → ((r : DispatchResult) (c : Bool) → o ≡ ok (r, c) → check_dispatch_result r ≡ ok r)
      → (finish_attempt s i o w).0 ≡ ok d
      → (replace_result i (terminal_state d.disposition) d ≡ ok (stored_with i d))
        × (check_dispatch_result d ≡ ok d)
  unfolding finish_attempt
  finished_with (err e) d w v h = absurd (cc h)
  finished_with (ok (r, b)) d w v h =
      let (stored, same) = completed_with r d b w h in
      subst
        (λ (x : DispatchResult).
          (replace_result i (terminal_state x.disposition) x ≡ ok (stored_with i x))
          × (check_dispatch_result x ≡ ok x))
        same (stored, v r b refl)

  -- Whatever a dispatch has returned, the claimed intent with that result, in the terminal state of its
  -- disposition, is one that the constructor of intents accepts; and a later request of the same
  -- fingerprint that finds it stored gets the same result, marked as a replay, while nothing outside is
  -- called or changed.
  pub dispatch_replayed :
      (q : MessageRequest) (w : World E) (r : DispatchResult)
      → (dispatch_claimed s i q w).0 ≡ ok r
      → (replace_result i (terminal_state r.disposition) r ≡ ok (stored_with i r))
        × ((recipient : String) (purpose : Option String) (transient : Option MessageRequest)
              (later : World E)
            → continue_intent s
                (stored_with i r)
                i.request_fingerprint
                recipient
                purpose
                transient
                later
              ≡ (ok (record r { idempotent_replay = true }), later))
  unfolding dispatch_claimed
  dispatch_replayed q w r h =
      let out = gateway_send s.providers i.provider_key q w in
      let (stored, valid) =
        finished_with (attempt_result i out.0) r out.1 (attempt_valid i out.0) h in
      (
        stored,
        λ recipient purpose transient later.
            continue_finished s (stored_with i r) r recipient purpose transient later
              (terminal_always r.disposition) refl valid,
      )
