-- ===== src/Phone/Indian.antt =====
-- National numbers of the region IN.
use Prim.Native.String.{[], ◌∷◌}
use healthassure_messaging.Base.{String, ◌≡◌, refl, ◌∙◌, true, false, Option, some, arith}
use healthassure_messaging.Base.Text.{every, is_blank, strip, is_digit}
use healthassure_messaging.Errors.{Result, ok}
use healthassure_messaging.Phone.{
  e164, is_e164_number, validate_e164_number, normalize_phone_number, normalize_compact,
  normalize_digits, normalize_national, normalize_national_number, drop_trunk, indian_mobile,
  national_ok, upper,
}
use healthassure_messaging.Phone.Normalize.{normalize_decimal}

-- `+91` before a valid mobile number is in E.164 form.
indian_e164 :
    (s : String)
    → indian_mobile s ≡ true
    → validate_e164_number ("+" ∷ "9" ∷ "1" ∷ s) ≡ ok ("+" ∷ "9" ∷ "1" ∷ s)
unfolding validate_e164_number is_e164_number e164 national_ok indian_mobile
indian_e164 [] h = cc
indian_e164 (c ∷ s) h = ground arith

drop_trunk_mobile : (s : String) → indian_mobile s ≡ true → drop_trunk s ≡ s
unfolding indian_mobile drop_trunk
drop_trunk_mobile [] h = cc
drop_trunk_mobile (c ∷ s) h = ground arith

mobile_digits : (s : String) → indian_mobile s ≡ true → every is_digit s ≡ true
unfolding indian_mobile
mobile_digits [] h = refl
mobile_digits (c ∷ s) h = ground arith

-- Both spellings reach the national normalizer.
module _ (region : Option String) (f : String → String → Result String) where
  compact_mobile :
      (s : String)
      → indian_mobile s ≡ true
      → normalize_compact s region f ≡ normalize_national s region f
  unfolding indian_mobile normalize_compact normalize_digits
  compact_mobile [] h = cc
  compact_mobile (c ∷ []) h = ground arith
  compact_mobile (c ∷ q ∷ s) h = ground arith

  compact_trunk :
      (s : String)
      → indian_mobile s ≡ true
      → normalize_compact ("0" ∷ s) region f ≡ normalize_national ("0" ∷ s) region f
  unfolding indian_mobile normalize_compact normalize_digits
  compact_trunk [] h = cc
  compact_trunk (c ∷ s) h = ground arith

mobile_nil : ¬ (indian_mobile [] ≡ true)
unfolding indian_mobile
mobile_nil h = cc

module _ (region s : String) (india : upper (strip region) ≡ "IN") (given : is_blank region ≡ false)
    (mobile : indian_mobile s ≡ true) where
  national_mobile :
      normalize_national s (some region) normalize_national_number ≡ ok ("+" ∷ "9" ∷ "1" ∷ s)
  unfolding normalize_national normalize_national_number
  national_mobile = rw (given, india, drop_trunk_mobile s mobile, mobile) (indian_e164 s mobile)

  national_trunk :
      normalize_national ("0" ∷ s) (some region) normalize_national_number
      ≡ ok ("+" ∷ "9" ∷ "1" ∷ s)
  unfolding normalize_national normalize_national_number drop_trunk
  national_trunk = rw (given, india, mobile) (indian_e164 s mobile)

  -- In the region IN a ten-digit mobile number, with or without the trunk prefix "0", becomes the
  -- number behind "+91".
  pub normalize_indian :
      (normalize_phone_number s (some region) normalize_national_number ≡ ok ("+" ∷ "9" ∷ "1" ∷ s))
      × (normalize_phone_number ("0" ∷ s) (some region) normalize_national_number
          ≡ ok ("+" ∷ "9" ∷ "1" ∷ s))
  normalize_indian = (
    normalize_digits_of s (mobile_digits s mobile) mobile ∙ national_mobile,
    normalize_decimal "0" s (some region) normalize_national_number (mobile_digits s mobile)
        ∙ compact_trunk (some region) normalize_national_number s mobile
        ∙ national_trunk,
  )
    where
      normalize_digits_of :
          (t : String)
          → every is_digit t ≡ true
          → indian_mobile t ≡ true
          → normalize_phone_number t (some region) normalize_national_number
            ≡ normalize_national t (some region) normalize_national_number
      normalize_digits_of [] d h = absurd (mobile_nil h)
      normalize_digits_of (c ∷ t) d h =
          normalize_decimal c t (some region) normalize_national_number d
          ∙ compact_mobile (some region) normalize_national_number (c ∷ t) h
