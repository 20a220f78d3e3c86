-- ===== src/Service/Monad.antt =====
-- Computations of the service: they read and change the world, and return or raise. What was
-- changed before a raise stays changed.
use healthassure_messaging.Errors.{Error, Result, ok, err}
use healthassure_messaging.Provider.{Reply, World}

abbrev pub Action : Type 0 → Type 0 → Type 0
Action E A = World E → Result A × World E

-- `except Exception: raise ServiceDependencyError`, with the test of the returned type.
abbrev pub dependency {ℓ} : {A : Type ℓ} → Reply A → Result A
dependency (Reply.value a) = ok a
dependency Reply.invalid = err Error.service_dependency
dependency (Reply.raised e) = err Error.service_dependency

module _ {E A : Type 0} where
  abbrev pub pure : A → Action E A
  pure a w = (ok a, w)

  abbrev pub lift : Result A → Action E A
  lift r w = (r, w)

  -- A call of an injected object.
  abbrev pub ask : (E → Reply A × E) → Action E (Reply A)
  ask call w = let (reply, env) = call w.env in (ok reply, record w { env = env })

-- The rest of a block, after a result.
abbrev pub then_run : {E A B : Type 0} → (A → Action E B) → Result A → Action E B
then_run f (ok a) w = f a w
then_run f (err e) w = (err e, w)

infixl 5 ◌>>=◌ ◌>>◌
abbrev pub ◌>>=◌ : {E A B : Type 0} → Action E A → (A → Action E B) → Action E B
◌>>=◌ m f w = let (r, w') = m w in then_run f r w'

abbrev pub ◌>>◌ : {E A B : Type 0} → Action E A → Action E B → Action E B
m >> k = m >>= λ _. k
