-- ===== src/Base/Digits.antt =====
-- Decimal notation is not blank.
use Prim.Native.Char.{Char, code}
use Prim.Native.String.{String, [], ◌∷◌}
use Prim.Native.Nat.{ℕ, zero, suc, ◌/◌, ◌%◌}
use mathlib.Core.Path.{◌≡◌, refl}
use mathlib.Core.Logic.{inl, inr}
use mathlib.Core.Bool.{Bool, true, false}
use healthassure_messaging.Base.Tests.{ltb, nat_eq, if◌then◌else◌, Bool-cases}
use healthassure_messaging.Base.Text.{is_space, is_blank, every}
use healthassure_messaging.Base.Decimal.{digit, decimal_from, decimal}

visible_either :
    (b : Bool) (x y : Char)
    → is_space (code x) ≡ false
    → is_space (code y) ≡ false
    → is_space (code (if b then x else y)) ≡ false
visible_either true x y p q = p
visible_either false x y p q = q

digit_visible : (n : ℕ) → is_space (code (digit n)) ≡ false
unfolding is_space digit
digit_visible n = visible_either (nat_eq n 0) "0" _ refl (
    visible_either (nat_eq n 1) "1" _ refl (
      visible_either (nat_eq n 2) "2" _ refl (
        visible_either (nat_eq n 3) "3" _ refl (
          visible_either (nat_eq n 4) "4" _ refl (
            visible_either (nat_eq n 5) "5" _ refl (
              visible_either (nat_eq n 6) "6" _ refl (
                visible_either (nat_eq n 7) "7" _ refl
                  (visible_either (nat_eq n 8) "8" "9" refl refl))))))))

digits_visible :
    (fuel n k : ℕ) (s : String) → every is_space (decimal_from fuel n (digit k ∷ s)) ≡ false
unfolding decimal_from
digits_visible zero n k s = rw (digit_visible k) refl
digits_visible (suc fuel) n k s = elim (Bool-cases (ltb n 10)) [
  | inl e ↦ rw (e, decimal_from) (rw (digit_visible n) refl)
  | inr e ↦ rw (e, decimal_from) (digits_visible fuel (n / 10) (n % 10) (digit k ∷ s))
]

pub decimal_visible : (n : ℕ) → is_blank (decimal n) ≡ false
unfolding is_blank decimal decimal_from
decimal_visible n = elim (Bool-cases (ltb n 10)) [
  | inl e ↦ rw (e, decimal) (rw (digit_visible n) refl)
  | inr e ↦ rw (e, decimal) (digits_visible n (n / 10) (n % 10) [])
]
