-- ===== src/Service/Effects.antt =====
-- When a send calls a provider: postconditions of the service's computations, with a rule for each
-- way to build one.
use healthassure_messaging.Base.{
  String, ◌≡◌, ◌≢◌, refl, ◌∙◌, ◌⊎◌, inl, Bool, true, false, List, ◌∷◌, if◌then◌else◌,
}
use mathlib.Core.Path.{subst}
use healthassure_messaging.Errors.{Error, Result, ok, err}
use healthassure_messaging.Contracts.{MessageRequest}
use healthassure_messaging.ServiceContracts.{DispatchResult}
use healthassure_messaging.Provider.{Reply, World}
use healthassure_messaging.Service.Monad.{Action, pure, lift, ask, then_run, ◌>>=◌}

abbrev pub Sent : Type 0
Sent = List (String × MessageRequest)

-- One more call of a provider.
abbrev pub Grew : Sent → Sent → Type 0
Grew before after = (call : String × MessageRequest) × (after ≡ call ∷ before)

-- The provider was called at most once. It was not called where the result is a replay, nor where
-- an exception other than PostDispatchPersistenceError and ValueError was raised.
pub record Effect (before : Sent) (r : Result DispatchResult) (after : Sent) : Type 0 where
  pub once : (after ≡ before) ⊎ Grew before after
  pub replayed : (d : DispatchResult) → r ≡ ok d → d.idempotent_replay ≡ true → after ≡ before
  pub refused :
      (e : Error)
      → r ≡ err e
      → e ≢ Error.post_dispatch_persistence
      → e ≢ Error.value_error
      → after ≡ before

pub Effect-still : {b a : Sent} (r : Result DispatchResult) → a ≡ b → Effect b r a
Effect-still r p = record { once = inl p; replayed = λ d _ _. p; refused = λ e _ _ _. p }

module _ {E : Type 0} where
  -- A computation that calls no provider.
  pub record Quiet {A : Type 0} (m : Action E A) : Type 0 where
    pub same : (w : World E) → (m w).1.sent ≡ w.sent

  pub record Sends (m : Action E DispatchResult) : Type 0 where
    pub at : (w : World E) → Effect w.sent (m w).0 (m w).1.sent

  pub Quiet-lift : {A : Type 0} (r : Result A) → Quiet (lift r)
  Quiet-lift r = record { same = λ w. refl }

  pub Quiet-pure : {A : Type 0} (a : A) → Quiet (pure a)
  Quiet-pure a = record { same = λ w. refl }

  pub Quiet-ask : {A : Type 0} (call : E → Reply A × E) → Quiet (ask call)
  Quiet-ask call = record { same = λ w. refl }

  pub Quiet-if :
      {A : Type 0} (b : Bool) (m n : Action E A) → Quiet m → Quiet n → Quiet (if b then m else n)
  Quiet-if true m n p q = p
  Quiet-if false m n p q = q

  then_run-Quiet :
      {A B : Type 0} (f : A → Action E B)
      → ((a : A) → Quiet (f a))
      → (r : Result A) → Quiet (then_run f r)
  then_run-Quiet f q (ok a) = record { same = (q a).same }
  then_run-Quiet f q (err e) = record { same = λ w. refl }

  pub Quiet-bind :
      {A B : Type 0} (m : Action E A) (f : A → Action E B)
      → Quiet m
      → ((a : A) → Quiet (f a))
      → Quiet (m >>= f)
  Quiet-bind m f p q = record { same = λ w. (then_run-Quiet f q (m w).0).same (m w).1 ∙ p.same w }

  -- A quiet computation sends nothing, and neither does it before the rest of a block.
  pub Sends-Quiet : (m : Action E DispatchResult) → Quiet m → Sends m
  Sends-Quiet m q = record { at = λ w. Effect-still (m w).0 (q.same w) }

  then_run-Sends :
      {A : Type 0} (f : A → Action E DispatchResult)
      → ((a : A) → Sends (f a))
      → (r : Result A) → Sends (then_run f r)
  then_run-Sends f q (ok a) = record { at = (q a).at }
  then_run-Sends f q (err e) = record { at = λ w. Effect-still (err e) refl }

  pub Sends-bind :
      {A : Type 0} (m : Action E A) (f : A → Action E DispatchResult)
      → Quiet m
      → ((a : A) → Sends (f a))
      → Sends (m >>= f)
  Sends-bind m f p q = record {
    at = λ w.
        subst (λ b. Effect b (then_run f (m w).0 (m w).1).0 (then_run f (m w).0 (m w).1).1.sent)
          (p.same w) ((then_run-Sends f q (m w).0).at (m w).1);
  }

  pub Sends-if :
      (b : Bool) (m n : Action E DispatchResult) → Sends m → Sends n → Sends (if b then m else n)
  Sends-if true m n p q = p
  Sends-if false m n p q = q

pub ruleset quiet_rules = (Quiet-lift, Quiet-pure, Quiet-ask, Quiet-if, Quiet-bind)

pub ruleset sends_rules = (quiet_rules, Sends-bind, Sends-if)
