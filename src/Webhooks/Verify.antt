-- ===== src/Webhooks/Verify.antt =====
-- When `verify_meta_webhook_signature` of src/healthassure_messaging/providers/meta_webhooks.py
-- accepts.
use Prim.Native.String.{◌∷◌}
use healthassure_messaging.Base.{
  ℕ, String, ◌≡◌, ◌≢◌, ◌↔◌, refl, true, false, none, some, List, ◌==◌, arith, Bool-cases, eq_iff,
  ◌∙◌, ap, sym, inl, inr,
}
use healthassure_messaging.Base.Text.{size, every}
use healthassure_messaging.Errors.{ok}
use healthassure_messaging.Webhooks.Signature.{
  is_hex, from_hex, strip_prefix, signature_digits, compare_digest, verify_meta_webhook_signature,
}

compare_digest_refl : (bytes : List ℕ) → compare_digest bytes bytes ≡ true
unfolding compare_digest
compare_digest_refl List.[] = refl
compare_digest_refl (List.◌∷◌ a bytes) = ground (arith, compare_digest_refl bytes)

compare_digest_eq : (a b : List ℕ) → compare_digest a b ≡ true → a ≡ b
unfolding compare_digest
compare_digest_eq List.[] List.[] h = refl
compare_digest_eq List.[] (List.◌∷◌ b bs) h = cc
compare_digest_eq (List.◌∷◌ a as') List.[] h = cc
compare_digest_eq (List.◌∷◌ a as') (List.◌∷◌ b bs) h = ground (arith, compare_digest_eq as' bs)

-- The header of 64 hexadecimal digits.
abbrev pub signature_header : String → String
signature_header digits = "s" ∷ "h" ∷ "a" ∷ "2" ∷ "5" ∷ "6" ∷ "=" ∷ digits

header_digits :
    (digits : String)
    → every is_hex digits ≡ true
    → size digits ≡ 64
    → signature_digits (signature_header digits) ≡ some digits
unfolding signature_digits strip_prefix
header_digits digits hex long = rw (hex, long) refl

compared :
    (mac : String → List ℕ → List ℕ) (body : List ℕ) (digits secret : String)
    → secret ≢ ""
    → every is_hex digits ≡ true
    → size digits ≡ 64
    → verify_meta_webhook_signature mac body (some (signature_header digits)) secret
      ≡ ok (compare_digest (from_hex digits) (mac secret body))
unfolding verify_meta_webhook_signature
compared mac body digits secret ne hex long = elim (Bool-cases (secret == "")) [
  | inl e ↦ absurd (ne ((eq_iff secret "").0 e))
  | inr e ↦ rw e (rw (header_digits digits hex long, verify_meta_webhook_signature) refl)
]

-- With a secret, a header of "sha256=" and 64 hexadecimal digits is accepted exactly where the bytes
-- that the digits stand for are the keyed digest of the body; without a header nothing is accepted.
pub verify_accepts :
    (mac : String → List ℕ → List ℕ) (body : List ℕ) (digits secret : String)
    → secret ≢ ""
    → every is_hex digits ≡ true
    → size digits ≡ 64
    → ((verify_meta_webhook_signature mac body (some (signature_header digits)) secret ≡ ok true)
        ↔ (from_hex digits ≡ mac secret body))
      × (verify_meta_webhook_signature mac body none secret ≡ ok false)
unfolding verify_meta_webhook_signature
verify_accepts mac body digits secret ne hex long = (
  (
    λ h.
        compare_digest_eq (from_hex digits) (mac secret body)
          (cc (compared mac body digits secret ne hex long, h)),
    λ p.
        compared mac body digits secret ne hex long
        ∙ ap ok
            (ap (compare_digest (from_hex digits)) (sym p) ∙ compare_digest_refl (from_hex digits)),
  ),
  ground (arith, eq_iff secret ""),
)
