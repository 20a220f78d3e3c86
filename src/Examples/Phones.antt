-- ===== src/Examples/Phones.antt =====
-- Runs of src/healthassure_messaging/phone.py.
use healthassure_messaging.Base.{◌≡◌, refl, true, false, none, some}
use healthassure_messaging.Base.Text.{is_blank, strip, lstrip, rstrip, is_space, is_decimal}
use healthassure_messaging.Errors.{ok, err, Error}
use healthassure_messaging.Phone.{
  indian_mobile, e164, national_ok, is_e164_number, validate_e164_number, drop_trunk,
  normalize_national_number, is_separator, is_allowed, allowed_input, remove_separators,
  capital_from, upper, normalize_national, normalize_digits, normalize_compact,
  normalize_phone_number,
}
use healthassure_messaging.Phone.Normalize.{
  normalize-IsE164, normalize_e164, normalize_idem, normalize_double_zero,
}
use healthassure_messaging.Phone.Indian.{normalize_indian}

spaced :
    normalize_phone_number " (98765) 43210 " (some "in") normalize_national_number
    ≡ ok "+919876543210"
unfolding normalize_phone_number is_blank allowed_input strip lstrip rstrip is_space is_allowed
    is_separator normalize_compact remove_separators normalize_digits normalize_national
    normalize_national_number upper capital_from indian_mobile drop_trunk validate_e164_number
    is_e164_number e164 national_ok
spaced = refl

normalize-IsE164_example : is_e164_number "+919876543210" ≡ true
normalize-IsE164_example =
    normalize-IsE164 (some "in") normalize_national_number " (98765) 43210 " "+919876543210" spaced

american : is_e164_number "+12025550123" ≡ true
unfolding is_e164_number e164 national_ok
american = refl

normalize_e164_example :
    normalize_phone_number "+12025550123" none normalize_national_number ≡ ok "+12025550123"
normalize_e164_example = normalize_e164 "+12025550123" none normalize_national_number american

normalize_idem_example :
    normalize_phone_number "+919876543210" none (λ s r. err Error.phone_number) ≡ ok "+919876543210"
normalize_idem_example =
    normalize_idem " (98765) 43210 " "+919876543210" (some "in") none normalize_national_number
      (λ s r. err Error.phone_number) spaced

decimal_digits : is_decimal "12025550123" ≡ true
decimal_digits = refl

normalize_double_zero_example :
    normalize_phone_number "0012025550123" none normalize_national_number
    ≡ normalize_phone_number "+12025550123" none normalize_national_number
normalize_double_zero_example =
    normalize_double_zero "12025550123" none normalize_national_number decimal_digits

region : upper (strip " in") ≡ "IN"
unfolding upper capital_from strip lstrip rstrip is_space
region = refl

region_given : is_blank " in" ≡ false
unfolding is_blank is_space
region_given = refl

mobile : indian_mobile "9876543210" ≡ true
unfolding indian_mobile
mobile = refl

normalize_indian_example :
    (normalize_phone_number "9876543210" (some " in") normalize_national_number
      ≡ ok "+919876543210")
    × (normalize_phone_number "09876543210" (some " in") normalize_national_number
        ≡ ok "+919876543210")
normalize_indian_example = normalize_indian " in" "9876543210" region region_given mobile
