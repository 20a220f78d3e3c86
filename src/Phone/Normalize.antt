-- ===== src/Phone/Normalize.antt =====
-- What `normalize_phone_number` returns.
use Prim.Native.Char.{Char, code}
use Prim.Native.String.{[], ◌∷◌}
use healthassure_messaging.Base.{
  ℕ, String, ◌≡◌, refl, ◌∙◌, true, false, Option, none, some, arith, nat_eq, Bool-cases, inl, inr,
}
use healthassure_messaging.Base.Text.{
  every, is_space, is_blank, strip, lstrip, rstrip, is_digit, is_decimal,
}
use healthassure_messaging.Errors.{Result, ok, err, ◌>>=◌}
use healthassure_messaging.Phone.{
  e164, is_e164_number, validate_e164_number, normalize_phone_number, normalize_compact,
  normalize_digits, normalize_national, upper, remove_separators, allowed_input, is_separator,
  is_allowed,
}

abbrev Normalizer : Type 0
Normalizer = String → String → Result String

validate-eq-ok :
    (s v : String) → validate_e164_number s ≡ ok v → (s ≡ v) × (is_e164_number v ≡ true)
unfolding validate_e164_number
validate-eq-ok s v h = elim (Bool-cases (is_e164_number s)) [
  | inl e ↦ ground arith
  | inr e ↦ ground arith
]

validate-IsE164 : (s v : String) → validate_e164_number s ≡ ok v → is_e164_number v ≡ true
validate-IsE164 s v h = (validate-eq-ok s v h).1

bind-validate-IsE164 :
    (m : Result String) (v : String) → (m >>= validate_e164_number) ≡ ok v → is_e164_number v ≡ true
bind-validate-IsE164 (ok s) v h = validate-IsE164 s v h
bind-validate-IsE164 (err e) v h = ground arith

national-IsE164 :
    (region : Option String) (f : Normalizer) (s v : String)
    → normalize_national s region f ≡ ok v
    → is_e164_number v ≡ true
unfolding normalize_national
national-IsE164 none f s v h = ground arith
national-IsE164 (some r) f s v h = ground (arith, bind-validate-IsE164 (f s (upper (strip r))) v)

module _ (region : Option String) (f : Normalizer) where
  digits-IsE164 :
      (p : Char) (s v : String) → normalize_digits p s region f ≡ ok v → is_e164_number v ≡ true
  unfolding normalize_digits
  digits-IsE164 p [] v h = ground (arith, national-IsE164 region f (p ∷ []) v)
  digits-IsE164 p (q ∷ s) v h =
      ground (arith, national-IsE164 region f (p ∷ q ∷ s) v, validate-IsE164 ("+" ∷ s) v)

  compact-IsE164 : (s v : String) → normalize_compact s region f ≡ ok v → is_e164_number v ≡ true
  unfolding normalize_compact
  compact-IsE164 [] v h = ground arith
  compact-IsE164 (p ∷ s) v h = ground (arith, digits-IsE164 p s v, validate-IsE164 (p ∷ s) v)

  -- Whatever the region and the national normalizer, a number that is returned is in E.164 form.
  pub normalize-IsE164 :
      (value v : String) → normalize_phone_number value region f ≡ ok v → is_e164_number v ≡ true
  unfolding normalize_phone_number
  normalize-IsE164 value v h = ground (arith, compact-IsE164 (remove_separators (strip value)) v)

-- A decimal digit is neither white space nor a separator, and may stand in the input.
digit_kept :
    (c : ℕ)
    → is_digit c ≡ true
    → (is_separator c ≡ false) × (is_allowed c ≡ true) × (is_space c ≡ false)
unfolding is_separator is_space is_allowed
digit_kept c h = ground arith

-- So a text of digits passes every stage unchanged.
rstrip_digits : (s : String) → every is_digit s ≡ true → rstrip s ≡ s
unfolding rstrip
rstrip_digits [] h = refl
rstrip_digits (c ∷ s) h = ground (arith, digit_kept (code c), rstrip_digits s)

remove_digits : (s : String) → every is_digit s ≡ true → remove_separators s ≡ s
unfolding remove_separators
remove_digits [] h = refl
remove_digits (c ∷ s) h = ground (arith, digit_kept (code c), remove_digits s)

allowed_digits : (s : String) → every is_digit s ≡ true → every is_allowed s ≡ true
allowed_digits [] h = refl
allowed_digits (c ∷ s) h = ground (arith, digit_kept (code c), allowed_digits s)

-- The plus sign likewise.
plus_kept :
    (c : ℕ)
    → nat_eq c b'+' ≡ true
    → (is_separator c ≡ false) × (is_allowed c ≡ true) × (is_space c ≡ false)
unfolding is_separator is_space is_allowed
plus_kept c h = ground arith

-- A plus sign before at least one digit passes every stage unchanged.
module _ (p : Char) (s : String) (plus : nat_eq (code p) b'+' ≡ true)
    (digits : is_decimal s ≡ true) where
  every_digit : every is_digit s ≡ true
  every_digit = go s digits
    where
      go : (t : String) → is_decimal t ≡ true → every is_digit t ≡ true
      go [] h = refl
      go (c ∷ t) h = h

  plus_not_blank : is_blank (p ∷ s) ≡ false
  unfolding is_blank
  plus_not_blank = ground (arith, plus_kept (code p))

  strip_plus : strip (p ∷ s) ≡ p ∷ s
  unfolding strip lstrip rstrip
  strip_plus = ground (arith, plus_kept (code p), rstrip_digits s, every_digit)

  remove_plus : remove_separators (p ∷ s) ≡ p ∷ s
  unfolding remove_separators
  remove_plus = ground (arith, plus_kept (code p), remove_digits s, every_digit)

  allowed_plus : allowed_input (p ∷ s) ≡ true
  unfolding allowed_input
  allowed_plus = ground (arith, plus_kept (code p), allowed_digits s, every_digit)

  normalize_plus :
      (region : Option String) (f : Normalizer)
      → normalize_phone_number (p ∷ s) region f ≡ validate_e164_number (p ∷ s)
  unfolding normalize_phone_number normalize_compact
  normalize_plus region f = rw (plus_not_blank, strip_plus, allowed_plus, remove_plus, plus, digits)

e164_shape :
    (v : String)
    → is_e164_number v ≡ true
    → (p : Char) × (s : String) × (v ≡ p ∷ s)
      × (nat_eq (code p) b'+' ≡ true)
      × (is_decimal s ≡ true)
unfolding is_e164_number e164
e164_shape [] h = cc
e164_shape (p ∷ []) h = cc
e164_shape (p ∷ c ∷ s) h = (p, c ∷ s, refl, ground arith, ground arith)

validate_of_e164 : (v : String) → is_e164_number v ≡ true → validate_e164_number v ≡ ok v
unfolding validate_e164_number
validate_of_e164 v h = rw h

-- A number in E.164 form is returned as it is, whatever the region and the national normalizer.
pub normalize_e164 :
    (v : String) (region : Option String) (f : Normalizer)
    → is_e164_number v ≡ true
    → normalize_phone_number v region f ≡ ok v
normalize_e164 v region f h =
    let (p, s, shape, plus, digits) = e164_shape v h in
    rw shape (normalize_plus p s plus digits region f) ∙ validate_of_e164 v h

-- Normalizing a second time, under any region and any national normalizer, changes nothing.
pub normalize_idem :
    (value v : String) (region region' : Option String) (f g : Normalizer)
    → normalize_phone_number value region f ≡ ok v
    → normalize_phone_number v region' g ≡ ok v
normalize_idem value v region region' f g h =
    normalize_e164 v region' g (normalize-IsE164 region f value v h)

-- A text of decimal digits reaches the last stage unchanged.
pub normalize_decimal :
    (c : Char) (s : String) (region : Option String) (f : Normalizer)
    → every is_digit (c ∷ s) ≡ true
    → normalize_phone_number (c ∷ s) region f ≡ normalize_compact (c ∷ s) region f
unfolding normalize_phone_number is_blank strip lstrip allowed_input
normalize_decimal c s region f h = ground (
  arith,
  digit_kept (code c),
  rstrip_digits (c ∷ s),
  remove_digits (c ∷ s),
  allowed_digits (c ∷ s),
)

-- The international prefix "00" before decimal digits means what "+" before them means.
pub normalize_double_zero :
    (s : String) (region : Option String) (f : Normalizer)
    → is_decimal s ≡ true
    → normalize_phone_number ("0" ∷ "0" ∷ s) region f ≡ normalize_phone_number ("+" ∷ s) region f
unfolding normalize_compact normalize_digits
normalize_double_zero s region f h = rw (
  normalize_decimal "0" ("0" ∷ s) region f (every_digit "+" s refl h),
  normalize_plus "+" s refl h region f,
  h,
)
