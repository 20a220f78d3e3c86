-- ===== src/Errors/Checks.antt =====
-- Constructors that return their argument or raise ValueError.
use healthassure_messaging.Base.{String, Bool, ◌≡◌, refl, Option, arith, true, false}
use healthassure_messaging.Errors.{
  Error, Result, ok, err, ◌>>◌, raise_if, require_text, require_optional_text,
}

-- A computation that returns nothing but `a`, and raises nothing but ValueError.
pub record Checks {ℓ} {A : Type ℓ} (a : A) (r : Result A) : Type ℓ where
  pub returns : (b : A) → r ≡ ok b → b ≡ a
  pub raises : (e : Error) → r ≡ err e → e ≡ Error.value_error

pub Checks-ok {ℓ} : {A : Type ℓ} (a : A) → Checks a (ok a)
Checks-ok a = record { returns = λ b h. cc; raises = λ e h. cc }

-- The tests that a constructor makes one after another.
pub record Tests {ℓ} {A : Type ℓ} (r : Result A) : Type ℓ where
  pub raises : (e : Error) → r ≡ err e → e ≡ Error.value_error

pub Checks-then {ℓ κ} :
    {A : Type ℓ} {B : Type κ} (b : B) (m : Result A) (k : Result B)
    → Tests m
    → Checks b k
    → Checks b (m >> k)
Checks-then b (ok x) k t c = c
Checks-then b (err e) k t c = record {
  returns = λ d h. cc;
  raises = λ x h. ground (arith, t.raises e refl);
}

pub require_text-Tests : (s : String) → Tests (require_text s)
unfolding require_text
require_text-Tests s = record { raises = λ e h. ground arith }

pub require_optional_text-Tests : (s : Option String) → Tests (require_optional_text s)
unfolding require_optional_text require_text
require_optional_text-Tests s = record { raises = λ e h. ground arith }

pub raise_if-Tests : (b : Bool) → Tests (raise_if b Error.value_error)
raise_if-Tests true = record { raises = λ e h. cc }
raise_if-Tests false = record { raises = λ e h. cc }

pub ruleset check_rules =
    (Checks-ok, Checks-then, require_text-Tests, require_optional_text-Tests, raise_if-Tests)
