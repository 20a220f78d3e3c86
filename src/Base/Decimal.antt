-- ===== src/Base/Decimal.antt =====
-- Python's `str(n)` and `int(text)` for numbers of 0 or more in decimal notation.
use Prim.Native.Char.{Char, code}
use Prim.Native.String.{String, [], ◌∷◌}
use Prim.Native.Nat.{ℕ, zero, suc, ◌+◌, ◌-◌, ◌*◌, ◌/◌, ◌%◌}
use healthassure_messaging.Base.Tests.{ltb, nat_eq, if◌then◌else◌}

-- The digit of a number below ten.
unfoldable pub digit : ℕ → Char
digit n =
    if nat_eq n 0
    then "0"
    else if nat_eq n 1
    then "1"
    else if nat_eq n 2
    then "2"
    else if nat_eq n 3
    then "3"
    else if nat_eq n 4
    then "4"
    else if nat_eq n 5
    then "5"
    else if nat_eq n 6
    then "6"
    else if nat_eq n 7
    then "7"
    else if nat_eq n 8
    then "8"
    else "9"

-- The digits of `n` before those collected, on fuel; a number has fewer digits than its successor.
unfoldable pub decimal_from : ℕ → ℕ → String → String
unfolding digit
decimal_from zero n out = out
decimal_from (suc fuel) n out =
    let rest = decimal_from fuel (n / 10) (digit (n % 10) ∷ out) in
    if ltb n 10 then digit n ∷ out else rest

unfoldable pub decimal : ℕ → String
unfolding decimal_from
decimal n = decimal_from (suc n) n []

-- The value of a text of digits, after those read.
unfoldable pub decimal_value_from : ℕ → String → ℕ
decimal_value_from n [] = n
decimal_value_from n (c ∷ s) = decimal_value_from (n * 10 + (code c - 48)) s

unfoldable pub decimal_value : String → ℕ
unfolding decimal_value_from
decimal_value s = decimal_value_from 0 s
