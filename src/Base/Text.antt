-- ===== src/Base/Text.antt =====
-- Python's `str` methods, over native texts read character by character.
use Prim.Native.Char.{code}
use Prim.Native.String.{String, [], ◌∷◌}
use Prim.Native.Nat.{ℕ, suc}
use mathlib.Core.Bool.{Bool, true, false, ◌&&◌, ◌||◌}
use healthassure_messaging.Base.Tests.{leb, nat_eq, if◌then◌else◌}

-- `len(s)`.
abbrev pub size : String → ℕ
size [] = 0
size (c ∷ s) = suc (size s)

-- Every code point passes the test.
abbrev pub every : (ℕ → Bool) → String → Bool
every p [] = true
every p (c ∷ s) = p (code c) && every p s

-- The code points that `str.isspace`, `str.strip` and `\s` take for white space.
unfoldable pub is_space : ℕ → Bool
is_space c =
    (leb 9 c && leb c 13)
    || (leb 28 c && leb c 32)
    || nat_eq c 0x85
    || nat_eq c 0xa0
    || nat_eq c 0x1680
    || (leb 0x2000 c && leb c 0x200a)
    || nat_eq c 0x2028
    || nat_eq c 0x2029
    || nat_eq c 0x202f
    || nat_eq c 0x205f
    || nat_eq c 0x3000

-- `not s.strip()`.
unfoldable pub is_blank : String → Bool
unfolding is_space
is_blank s = every is_space s

-- `s.lstrip()`, `s.rstrip()` and `s.strip()`.
unfoldable pub lstrip : String → String
unfolding is_space
lstrip [] = []
lstrip (c ∷ s) = let rest = lstrip s in if is_space (code c) then rest else c ∷ s

unfoldable pub rstrip : String → String
unfolding is_space
rstrip [] = []
rstrip (c ∷ s) = let rest = rstrip s in if every is_space (c ∷ s) then [] else c ∷ rest

unfoldable pub strip : String → String
unfolding lstrip rstrip
strip s = rstrip (lstrip s)

-- An ASCII decimal digit.
abbrev pub is_digit : ℕ → Bool
is_digit c = leb 48 c && leb c 57

-- `[0-9]+` on a whole text; it is `isdigit` and `isdecimal` on ASCII text.
abbrev pub is_decimal : String → Bool
is_decimal [] = false
is_decimal (c ∷ s) = is_digit (code c) && every is_digit s
