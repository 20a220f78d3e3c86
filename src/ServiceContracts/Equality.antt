-- ===== src/ServiceContracts/Equality.antt =====
-- `==` of the frozen dataclasses.
use healthassure_messaging.Base.{
  String, ◌≡◌, ◌↔◌, Bool, true, false, ◌==◌, eq_iff, Bool-cases, inl, inr, refl,
}
use native.Mathlib.Decide.{ℕ_discrete}
use healthassure_messaging.Contracts.{NormalizedError}
use healthassure_messaging.ServiceContracts.{DispatchResult, MessageIntent}

String-discrete : Discrete String
String-discrete s t = elim (Bool-cases (s == t)) [
  | inl e ↦ yes ((eq_iff s t).0 e)
  | inr e ↦ no (λ p. cc ((eq_iff s t).1 p))
]

NormalizedError-discrete : Discrete NormalizedError
NormalizedError-discrete = hlevel (String-discrete, ℕ_discrete)

DispatchResult-discrete : Discrete DispatchResult
DispatchResult-discrete = hlevel (String-discrete, NormalizedError-discrete)

pub MessageIntent-discrete : Discrete MessageIntent
MessageIntent-discrete = hlevel (String-discrete, DispatchResult-discrete)

abbrev holds {ℓ} : {A : Type ℓ} → Dec A → Bool
holds (yes p) = true
holds (no p) = false

pub intent_eq : MessageIntent → MessageIntent → Bool
intent_eq a b = holds (MessageIntent-discrete a b)

holds-true {ℓ} : {A : Type ℓ} (d : Dec A) → holds d ≡ true → A
holds-true (yes p) h = p
holds-true (no p) h = absurd (cc h)

true-holds {ℓ} : {A : Type ℓ} (d : Dec A) → A → holds d ≡ true
true-holds (yes p) a = refl
true-holds (no p) a = absurd (p a)

pub intent_eq_iff : (a b : MessageIntent) → (intent_eq a b ≡ true) ↔ (a ≡ b)
unfolding intent_eq
intent_eq_iff a b =
    (λ h. holds-true (MessageIntent-discrete a b) h, λ p. true-holds (MessageIntent-discrete a b) p)
