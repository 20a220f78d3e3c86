-- ===== src/Webhooks/Signature.antt =====
-- `verify_meta_webhook_signature` of src/healthassure_messaging/providers/meta_webhooks.py. The
-- keyed digest is a parameter; a byte is a number. A text of the model can always be encoded, so the
-- ValueError for a secret with a lone surrogate has no case here.
use Prim.Native.Char.{code}
use Prim.Native.String.{String}
use healthassure_messaging.Base.{
  ℕ, ◌+◌, ◌-◌, ◌*◌, Bool, true, false, ◌&&◌, ◌||◌, Option, none, some, List, [], ◌∷◌, leb, nat_eq,
  ◌==◌, if◌then◌else◌,
}
use healthassure_messaging.Base.Text.{size, every}
use healthassure_messaging.Errors.{Error, Result, ok, err}

-- `[0-9a-fA-F]`.
unfoldable pub is_hex : ℕ → Bool
is_hex c = (leb 48 c && leb c 57) || (leb 97 c && leb c 102) || (leb 65 c && leb c 70)

unfoldable pub hex_value : ℕ → ℕ
hex_value c = if leb c 57 then c - 48 else if leb c 70 then c - 55 else c - 87

-- `bytes.fromhex`, on a text of an even number of hexadecimal digits.
unfoldable pub from_hex : String → List ℕ
from_hex (String.◌∷◌ a (String.◌∷◌ b s)) =
    (16 * hex_value (code a) + hex_value (code b)) ∷ from_hex s
from_hex _ = []

-- What stands behind a prefix.
unfoldable pub strip_prefix : String → String → Option String
strip_prefix String.[] s = some s
strip_prefix (String.◌∷◌ c p) String.[] = none
strip_prefix (String.◌∷◌ c p) (String.◌∷◌ d s) =
    let rest = strip_prefix p s in if nat_eq (code c) (code d) then rest else none

-- The group of `sha256=([0-9a-fA-F]{64})` matched on the whole header.
unfoldable pub signature_digits : String → Option String
signature_digits header = elim (strip_prefix "sha256=" header) [
  | none ↦ none
  | some s ↦ if every is_hex s && nat_eq (size s) 64 then some s else none
]

-- `hmac.compare_digest`, whose answer is that of `==`.
unfoldable pub compare_digest : List ℕ → List ℕ → Bool
compare_digest [] [] = true
compare_digest (a ∷ as') (b ∷ bs) = nat_eq a b && compare_digest as' bs
compare_digest _ _ = false

unfoldable pub verify_meta_webhook_signature :
    (String → List ℕ → List ℕ) → List ℕ → Option String → String → Result Bool
verify_meta_webhook_signature hmac_sha256 raw_body signature_header app_secret =
    if app_secret == "" then err Error.value_error else elim signature_header [
      | none ↦ ok false
      | some header ↦ elim (signature_digits header) [
        | none ↦ ok false
        | some digits ↦ ok (compare_digest (from_hex digits) (hmac_sha256 app_secret raw_body))
      ]
    ]
