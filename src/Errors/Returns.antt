-- ===== src/Errors/Returns.antt =====
-- What a call returns, if it returns.
use mathlib.Core.Path.{subst}
use healthassure_messaging.Base.{◌≡◌, refl, Bool, true, false}
use healthassure_messaging.Errors.{Error, Result, ok, err, ◌>>=◌, ◌>>◌, raise_if}

-- What a call returns, if it returns, satisfies `P`.
pub record Returns {A : Type 0} (P : A → Type 0) (m : Result A) : Type 0 where
  pub at : (a : A) → m ≡ ok a → P a

pub Returns-ok : {A : Type 0} {P : A → Type 0} {a : A} → P a → Returns P (ok a)
Returns-ok {P = P} p = record { at = λ b h. subst P (cc h) p }

pub Returns-err : {A : Type 0} {P : A → Type 0} (e : Error) → Returns {A = A} P (err e)
Returns-err e = record { at = λ b h. absurd (cc h) }

pub Returns-bind :
    {A B : Type 0} {P : A → Type 0} {Q : B → Type 0} {m : Result A} {f : A → Result B}
    → Returns P m
    → ((a : A) → P a → Returns Q (f a))
    → Returns Q (m >>= f)
Returns-bind {m = ok a} r next = next a (r.at a refl)
Returns-bind {m = err e} r next = Returns-err e

pub Returns-then :
    {B : Type 0} {Q : B → Type 0} (m : Result (Unit {0})) {k : Result B}
    → Returns Q k
    → Returns Q (m >> k)
Returns-then (ok a) r = r
Returns-then (err e) r = Returns-err e

pub Returns-raise_if :
    {B : Type 0} {Q : B → Type 0} (b : Bool) (e : Error) {k : Result B}
    → (b ≡ false → Returns Q k)
    → Returns Q (raise_if b e >> k)
Returns-raise_if true e next = Returns-err e
Returns-raise_if false e next = next refl

-- Where nothing is needed of the first call.
pub Returns-next :
    {A B : Type 0} {Q : B → Type 0} (m : Result A) (f : A → Result B)
    → ((a : A) → Returns Q (f a))
    → Returns Q (m >>= f)
Returns-next (ok a) f next = next a
Returns-next (err e) f next = Returns-err e

-- With the equation of the first call.
pub Returns-run :
    {A B : Type 0} {Q : B → Type 0} (m : Result A) {f : A → Result B}
    → ((a : A) → m ≡ ok a → Returns Q (f a))
    → Returns Q (m >>= f)
Returns-run (ok a) next = next a refl
Returns-run (err e) next = Returns-err e
