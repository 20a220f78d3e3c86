-- ===== src/Base/Append.antt =====
-- Texts that begin alike, and texts with a dot.
use Prim.Native.Char.{code}
use Prim.Native.String.{String, ◌++◌}
use mathlib.Core.Path.{◌≡◌, sym, ◌∙◌}
use mathlib.Core.Logic.{◌≢◌, inl, inr}
use mathlib.Core.Bool.{Bool, true, false, ◌||◌}
use text.Mathlib.Text.{◌==◌}
use text.Mathlib.TextEquality.{eq_iff}
use text.Mathlib.TextPositions.{eq_refl}
use text.Mathlib.TextLemmas.{nil-append, cons-append}
use healthassure_messaging.Base.Tests.{nat_eq, Bool-cases}

append_cancel : (s t u : String) → s ++ t ≡ s ++ u → t ≡ u
append_cancel String.[] t u h = cc (h, nil-append t, nil-append u)
append_cancel (String.◌∷◌ c s) t u h =
    append_cancel s t u (cc (h, cons-append c s t, cons-append c s u))

pub append_ne : (s t u : String) → t ≢ u → (s ++ t == s ++ u) ≡ false
append_ne s t u d = elim (Bool-cases (s ++ t == s ++ u)) [
  | inl same ↦ absurd (d (append_cancel s t u ((eq_iff (s ++ t) (s ++ u)).0 same)))
  | inr e ↦ e
]

-- A common beginning does not matter.
pub append-eq : (s t u : String) → (s ++ t == s ++ u) ≡ (t == u)
append-eq s t u = elim (Bool-cases (t == u)) [
  | inl same ↦ rw ((eq_iff t u).0 same, eq_refl (s ++ u), eq_refl u)
  | inr other ↦ append_ne s t u (λ p. absurd (cc (other, (eq_iff t u).1 p))) ∙ sym other
]

-- Whether a text has a dot.
abbrev pub is_dotted : String → Bool
is_dotted String.[] = false
is_dotted (String.◌∷◌ c s) = nat_eq (code c) b'.' || is_dotted s

pub is_dotted-append : (s t : String) → is_dotted s ≡ true → is_dotted (s ++ t) ≡ true
is_dotted-append String.[] t h = absurd (cc h)
is_dotted-append (String.◌∷◌ c s) t h = elim (Bool-cases (nat_eq (code c) b'.')) [
  | inl e ↦ rw (cons-append c s t, e)
  | inr e ↦ rw (cons-append c s t, e) (is_dotted-append s t (rw e at h))
]

pub dotted_ne : (s t : String) → is_dotted s ≡ true → is_dotted t ≡ false → (s == t) ≡ false
dotted_ne s t h k = elim (Bool-cases (s == t)) [
  | inl same ↦ absurd (cc (h, k, (eq_iff s t).0 same))
  | inr other ↦ other
]
