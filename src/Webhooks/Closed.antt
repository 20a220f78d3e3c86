-- ===== src/Webhooks/Closed.antt =====
-- The parser of src/healthassure_messaging/providers/meta_webhooks.py fails closed.
use mathlib.Core.Path.{subst}
use healthassure_messaging.Base.{
  ℕ, String, ◌≡◌, refl, inl, inr, Bool, true, false, Option, none, some, if◌then◌else◌, arith,
  Bool-cases, leb,
}
use healthassure_messaging.Base.Text.{is_blank}
use healthassure_messaging.Base.Digits.{decimal_visible}
use healthassure_messaging.Base.Decimal.{decimal}
use healthassure_messaging.Contracts.{out_of_range}
use healthassure_messaging.Base.Int.{pos}
use healthassure_messaging.Errors
use healthassure_messaging.Errors.{
  Error, Result, ok, err, ◌>>=◌, ◌>>◌, raise_if, require_optional_text,
}
use healthassure_messaging.Json.{Value, Array, nil, cons, get}
use healthassure_messaging.Webhooks.{DeliveryStatusEvent, check_delivery_error, check_event}
use healthassure_messaging.Webhooks.Parse.{
  fail, require_object, require_array, require_text, optional_text, require_timestamp, require_code,
  optional_code, parse_error, parse_error_items, parse_errors, parse_origin, parse_conversation,
  optional_bool, parse_pricing,
}

-- It raises nothing but MetaWebhookParseError, and what it returns satisfies `P`.
pub record Closed {ℓ} {A : Type ℓ} (P : A → Type 0) (m : Result A) : Type ℓ where
  pub returns : (a : A) → m ≡ ok a → P a
  pub raises : (e : Error) → m ≡ err e → e ≡ Error.webhook_parse

abbrev pub Anything {ℓ} : {A : Type ℓ} → A → Type 0
Anything a = Unit

abbrev pub Visible : String → Type 0
Visible s = is_blank s ≡ false

abbrev pub Given : Option String → Type 0
Given none = Unit
Given (some s) = Visible s

pub Closed-ok {ℓ} : {A : Type ℓ} {P : A → Type 0} {a : A} → P a → Closed P (ok a)
Closed-ok {P = P} p = record { returns = λ b h. subst P (cc h) p; raises = λ e h. cc }

pub Closed-fail {ℓ} : {A : Type ℓ} {P : A → Type 0} → Closed {A = A} P fail
Closed-fail = record { returns = λ b h. absurd (cc h); raises = λ e h. cc }

pub Closed-bind {ℓ κ} :
    {A : Type ℓ} {B : Type κ} {P : A → Type 0} {Q : B → Type 0} {m : Result A} {f : A → Result B}
    → Closed P m
    → ((a : A) → P a → Closed Q (f a))
    → Closed Q (m >>= f)
Closed-bind {m = ok a} c next = next a (c.returns a refl)
Closed-bind {m = err e} c next = record {
  returns = λ b h. absurd (cc h);
  raises = λ x h. c.raises x (cc);
}

pub Closed-if {ℓ} :
    {A : Type ℓ} {P : A → Type 0} (b : Bool) {m n : Result A}
    → Closed P m
    → Closed P n
    → Closed P (if b then m else n)
Closed-if true x y = x
Closed-if false x y = y

pub require_object-Closed : (v : Option Value) → Closed Anything (require_object v)
unfolding require_object
require_object-Closed (some (Value.obj d)) = Closed-ok tt
require_object-Closed _ = Closed-fail

pub require_array-Closed : (v : Option Value) → Closed Anything (require_array v)
unfolding require_array
require_array-Closed (some (Value.arr d)) = Closed-ok tt
require_array-Closed _ = Closed-fail

nonblank_text : (s : String) → Closed Visible (if is_blank s then fail else ok s)
nonblank_text s = elim (Bool-cases (is_blank s)) [
  | inl e ↦ rw e Closed-fail
  | inr e ↦ rw e (Closed-ok e)
]

pub require_text-Closed : (v : Option Value) → Closed Visible (require_text v)
unfolding require_text
require_text-Closed (some (Value.str s)) = nonblank_text s
require_text-Closed _ = Closed-fail

optional_text-Closed : (v : Option Value) → Closed Given (optional_text v)
unfolding optional_text
optional_text-Closed none = Closed-ok tt
optional_text-Closed (some v) = Closed-bind (require_text-Closed (some v)) (λ s p. Closed-ok p)

pub require_timestamp-Closed : (v : Option Value) → Closed Anything (require_timestamp v)
unfolding require_timestamp
require_timestamp-Closed (some (Value.str s)) = Closed-if _ (Closed-ok tt) Closed-fail
require_timestamp-Closed _ = Closed-fail

optional_bool-Closed : (v : Option Value) → Closed Anything (optional_bool v)
unfolding optional_bool
optional_bool-Closed none = Closed-ok tt
optional_bool-Closed (some (Value.bool b)) = Closed-ok tt
optional_bool-Closed (some _) = Closed-fail

abbrev InRange : Option ℕ → Type 0
InRange o = out_of_range o 0 2147483647 ≡ false

small_code : (n : ℕ) → Closed (λ m. InRange (some m)) (if leb n 2147483647 then ok n else fail)
small_code n = elim (Bool-cases (leb n 2147483647)) [
  | inl e ↦ rw e (Closed-ok (ground arith))
  | inr e ↦ rw e Closed-fail
]

require_code-Closed : (v : Option Value) → Closed (λ m. InRange (some m)) (require_code v)
unfolding require_code
require_code-Closed (some (Value.num (pos n))) = small_code n
require_code-Closed _ = Closed-fail

optional_code-Closed : (v : Option Value) → Closed InRange (optional_code v)
unfolding optional_code
optional_code-Closed none = Closed-ok refl
optional_code-Closed (some v) = Closed-bind (require_code-Closed (some v)) (λ n p. Closed-ok p)

-- The two constructors accept what the parser hands them.
check_delivery_error_ok :
    (code : ℕ) (subcode : Option ℕ)
    → InRange subcode
    → check_delivery_error (record { provider_code = decimal code; provider_subcode = subcode })
      ≡ ok (record { provider_code = decimal code; provider_subcode = subcode })
unfolding check_delivery_error Errors.require_text
check_delivery_error_ok code subcode p = rw (decimal_visible code, p) refl

parse_error-Closed : (v : Value) → Closed Anything (parse_error v)
unfolding parse_error
parse_error-Closed v = Closed-bind (require_object-Closed (some v)) (λ error _.
    Closed-bind (require_code-Closed (get "code" error)) (λ code _.
      Closed-bind (optional_code-Closed (get "error_subcode" error))
        (λ subcode p. rw (check_delivery_error_ok code subcode p) (Closed-ok tt))))

parse_error_items-Closed : (xs : Array) → Closed Anything (parse_error_items xs)
unfolding parse_error_items
parse_error_items-Closed nil = Closed-ok tt
parse_error_items-Closed (cons x xs) =
    Closed-bind (parse_error-Closed x)
      (λ e _. Closed-bind (parse_error_items-Closed xs) (λ es _. Closed-ok tt))

pub parse_errors-Closed : (v : Option Value) → Closed Anything (parse_errors v)
unfolding parse_errors
parse_errors-Closed none = Closed-ok tt
parse_errors-Closed (some v) =
    Closed-bind (require_array-Closed (some v)) (λ xs _. parse_error_items-Closed xs)

parse_origin-Closed : (v : Option Value) → Closed Given (parse_origin v)
unfolding parse_origin
parse_origin-Closed none = Closed-ok tt
parse_origin-Closed (some v) =
    Closed-bind (require_object-Closed (some v))
      (λ origin _. Closed-bind (require_text-Closed (get "type" origin)) (λ t p. Closed-ok p))

pub parse_conversation-Closed :
    (v : Option Value) → Closed (λ c. Given c.0 × Given c.1) (parse_conversation v)
unfolding parse_conversation
parse_conversation-Closed none = Closed-ok (tt, tt)
parse_conversation-Closed (some v) = Closed-bind (require_object-Closed (some v)) (λ conversation _.
    Closed-bind (require_text-Closed (get "id" conversation)) (λ id p.
      Closed-bind (parse_origin-Closed (get "origin" conversation)) (λ origin q. Closed-ok (p, q))))

pub parse_pricing-Closed :
    (v : Option Value) → Closed (λ c. Given c.0 × Given c.1) (parse_pricing v)
unfolding parse_pricing
parse_pricing-Closed none = Closed-ok (tt, tt)
parse_pricing-Closed (some v) = Closed-bind (require_object-Closed (some v)) (λ pricing _.
    Closed-bind (optional_text-Closed (get "pricing_model" pricing)) (λ model p.
      Closed-bind (optional_text-Closed (get "category" pricing)) (λ category q.
        Closed-bind (optional_bool-Closed (get "billable" pricing))
          (λ billable _. Closed-ok (p, q)))))

optional_text_ok : (o : Option String) → Given o → require_optional_text o ≡ ok tt
unfolding require_optional_text Errors.require_text
optional_text_ok none p = refl
optional_text_ok (some s) p = rw p refl

pub check_event_ok :
    (e : DeliveryStatusEvent)
    → Visible e.provider_key
    → Visible e.provider_message_id
    → Visible e.provider_status
    → Visible e.recipient_id
    → Visible e.waba_id
    → Visible e.phone_number_id
    → Given e.conversation_id
    → Given e.conversation_origin_type
    → Given e.pricing_model
    → Given e.pricing_category
    → check_event e ≡ ok e
unfolding check_event Errors.require_text
check_event_ok e a b c d f g h i j k =
    rw
      (
        a,
        b,
        c,
        d,
        f,
        g,
        optional_text_ok _ h,
        optional_text_ok _ i,
        optional_text_ok _ j,
        optional_text_ok _ k,
      )
      refl
