-- ===== src/Phone.antt =====
-- src/healthassure_messaging/phone.py: phone numbers in E.164 form.
pub mod Normalize
pub mod Indian
use Prim.Native.Char.{Char, code}
use Prim.Native.String.{[], ◌∷◌}
use healthassure_messaging.Base.{
  ℕ, String, Bool, true, false, not, ◌&&◌, ◌||◌, Option, none, some, leb, nat_eq, ◌==◌,
  if◌then◌else◌,
}
use healthassure_messaging.Base.Text.{size, every, is_space, is_blank, strip, is_digit, is_decimal}
use healthassure_messaging.Errors.{Error, Result, ok, err, ◌>>=◌}

-- `[6-9][0-9]{9}` on the whole text.
unfoldable pub indian_mobile : String → Bool
indian_mobile [] = false
indian_mobile (c ∷ s) = leb 54 (code c) && leb (code c) 57 && every is_digit s && nat_eq (size s) 9

-- `\+[1-9][0-9]{7,14}` on the whole text.
unfoldable pub e164 : String → Bool
e164 [] = false
e164 (p ∷ []) = false
e164 (p ∷ c ∷ s) =
    nat_eq (code p) b'+'
    && leb 49 (code c)
    && leb (code c) 57
    && every is_digit s
    && leb 7 (size s)
    && leb (size s) 14

-- `value[1:]` with the prefix 91 takes ten Indian digits; other digits pass.
unfoldable pub national_ok : String → Bool
national_ok (p ∷ c ∷ d ∷ s) =
    if nat_eq (code c) b'9' && nat_eq (code d) b'1' then indian_mobile s else true
national_ok s = true

unfoldable pub is_e164_number : String → Bool
is_e164_number value = e164 value && national_ok value

unfoldable pub validate_e164_number : String → Result String
validate_e164_number value = if is_e164_number value then ok value else err Error.phone_number

-- A leading "0" is the trunk prefix.
unfoldable pub drop_trunk : String → String
drop_trunk [] = []
drop_trunk (c ∷ s) = if nat_eq (code c) b'0' then s else c ∷ s

unfoldable pub normalize_national_number : String → String → Result String
normalize_national_number value region =
    if region == "IN"
    then (let national_digits = drop_trunk value in
        if indian_mobile national_digits
        then ok ("+" ∷ "9" ∷ "1" ∷ national_digits)
        else err Error.phone_number)
    else err Error.phone_number

-- `[\s().-]`.
unfoldable pub is_separator : ℕ → Bool
is_separator c = is_space c || nat_eq c b'(' || nat_eq c b')' || nat_eq c b'.' || nat_eq c b'-'

-- `[0-9+()\s.\-]`, on one character.
unfoldable pub is_allowed : ℕ → Bool
is_allowed c = is_digit c || nat_eq c b'+' || is_separator c

-- `_ALLOWED_INPUT.fullmatch(text)`.
unfoldable pub allowed_input : String → Bool
allowed_input [] = false
allowed_input (c ∷ s) = every is_allowed (c ∷ s)

-- `_SEPARATORS.sub("", text)`.
unfoldable pub remove_separators : String → String
remove_separators [] = []
remove_separators (c ∷ s) =
    let rest = remove_separators s in if is_separator (code c) then rest else c ∷ rest

-- `str.upper` on the ASCII letters and on the dotless i, the one other character whose capital is
-- a letter of "IN".
unfoldable pub capital_from : String → String → Char → Char
capital_from [] capitals c = c
capital_from (a ∷ letters) [] c = c
capital_from (a ∷ letters) (b ∷ capitals) c =
    let rest = capital_from letters capitals c in if nat_eq (code a) (code c) then b else rest

unfoldable pub upper : String → String
upper [] = []
upper (c ∷ s) = capital_from "abcdefghijklmnopqrstuvwxyzı" "ABCDEFGHIJKLMNOPQRSTUVWXYZI" c ∷ upper s

unfoldable pub normalize_national :
    String → Option String → (String → String → Result String) → Result String
normalize_national compact none normalizer = err Error.phone_number
normalize_national compact (some region) normalizer =
    if is_blank region
    then err Error.phone_number
    else do normalized ← normalizer compact (upper (strip region)); validate_e164_number normalized

-- What follows the test for "+": the text begins with `p`.
unfoldable pub normalize_digits :
    Char → String → Option String → (String → String → Result String) → Result String
normalize_digits p (q ∷ s) region normalizer =
    if nat_eq (code p) b'0' && nat_eq (code q) b'0'
    then (if is_decimal s then validate_e164_number ("+" ∷ s) else err Error.phone_number)
    else if is_decimal (p ∷ q ∷ s)
    then normalize_national (p ∷ q ∷ s) region normalizer
    else err Error.phone_number
normalize_digits p [] region normalizer =
    if is_decimal (p ∷ [])
    then normalize_national (p ∷ []) region normalizer
    else err Error.phone_number

-- The three forms that the compacted text may have: "+…", "00…" and national digits.
unfoldable pub normalize_compact :
    String → Option String → (String → String → Result String) → Result String
normalize_compact (p ∷ s) region normalizer =
    if nat_eq (code p) b'+'
    then (if is_decimal s then validate_e164_number (p ∷ s) else err Error.phone_number)
    else normalize_digits p s region normalizer
normalize_compact [] region normalizer = err Error.phone_number

unfoldable pub normalize_phone_number :
    String → Option String → (String → String → Result String) → Result String
normalize_phone_number value default_region normalizer =
    if is_blank value
    then err Error.phone_number
    else if allowed_input (strip value)
    then normalize_compact (remove_separators (strip value)) default_region normalizer
    else err Error.phone_number
