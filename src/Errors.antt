-- ===== src/Errors.antt =====
-- The exceptions that the package raises, one constructor for each class, and a computation that
-- may raise one of them.
pub mod Checks
pub mod Returns
use healthassure_messaging.Base.{
  ◌≡◌, refl, ◌⊎◌, inl, inr, Bool, true, false, Option, none, some, String, if◌then◌else◌,
}
use healthassure_messaging.Base.Text.{is_blank}

pub data Error : Type 0 where
  value_error type_error key_error attribute_error assertion_error : Error
  phone_number provider_registration duplicate_provider : Error
  provider_not_found provider_contract : Error
  unknown_template template_parameter missing_template_parameter : Error
  extra_template_parameter duplicate_template_alias : Error
  idempotency_conflict intent_in_progress intent_state : Error
  service_dependency post_dispatch_persistence : Error
  request_serialization unsupported_schema_version sensitive_request_unavailable : Error
  webhook_parse : Error
  mongo_persistence mongo_conflict mongo_record : Error
  stop_iteration : Error
  -- an exception of a class that the package does not declare
  foreign : Error

-- What a call gives back: a value, or the exception that it raises.
pub data Result {ℓ} (Value : Type ℓ) : Type ℓ where
  ok : Value → Result Value
  err : Error → Result Value

-- `if c: raise e`.
abbrev pub raise_if : Bool → Error → Result (Unit {0})
raise_if c e = if c then err e else ok tt

module _ {ℓ κ} {A : Type ℓ} {B : Type κ} where
  infixl 5 ◌>>=◌ ◌>>◌
  abbrev pub ◌>>=◌ : Result A → (A → Result B) → Result B
  ok value >>= next = next value
  err raised >>= next = err raised

  abbrev pub ◌>>◌ : Result A → Result B → Result B
  first >> second = first >>= λ ignored. second

  -- A sequence that returns has passed its first call.
  pub >>=-eq-ok :
      (first : Result A) (next : A → Result B) {b : B}
      → (first >>= next) ≡ ok b
      → (a : A) × (first ≡ ok a) × (next a ≡ ok b)
  >>=-eq-ok (ok value) next returned = (value, refl, returned)
  >>=-eq-ok (err raised) next returned = cc

-- `_require_text(value, name)`.
unfoldable pub require_text : String → Result String
require_text v = if is_blank v then err Error.value_error else ok v

-- `_require_optional_text(value, name)`.
unfoldable pub require_optional_text : Option String → Result (Unit {0})
unfolding require_text
require_optional_text none = ok tt
require_optional_text (some v) = do require_text v; ok tt

pub Result-cases {ℓ} :
    {A : Type ℓ} (m : Result A) → ((a : A) × (m ≡ ok a)) ⊎ ((e : Error) × (m ≡ err e))
Result-cases (ok a) = inl (a, refl)
Result-cases (err e) = inr (e, refl)
