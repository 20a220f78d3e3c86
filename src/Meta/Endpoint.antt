-- ===== src/Meta/Endpoint.antt =====
-- Where src/healthassure_messaging/providers/meta.py sends a request.
use Prim.Native.String.{[], ◌∷◌, ◌++◌}
use healthassure_messaging.Base.{ℕ, String, ◌≡◌, refl, true, false, not, List, arith, negated_test}
use healthassure_messaging.Base.Text.{is_blank, is_digit, is_decimal, every}
use healthassure_messaging.Errors.{Error, ok, require_text}
use healthassure_messaging.Errors.Returns.{
  Returns, Returns-ok, Returns-run, Returns-then, Returns-raise_if,
}
use healthassure_messaging.Contracts.{MessageRequest, SendResult}
use healthassure_messaging.Http.{HttpOutcome}
use healthassure_messaging.Json.{Loaded, Value}
use healthassure_messaging.Provider.{Reply}
use healthassure_messaging.Meta.{meta_send}
use healthassure_messaging.Meta.Config.{
  Numbers, MetaCloudConfig, PostCall, graph_version_ok, after_major, phone_number_id_ok,
  validate_timeout, check_config, graph_host, post_call, path_character,
}

-- `MetaCloudProvider.send` with its configuration.
unfoldable pub configured_send :
    {T E : Type 0}
    → (List ℕ → Loaded)
    → MetaCloudConfig T
    → (PostCall T → E → Reply HttpOutcome × E)
    → MessageRequest
    → E
    → Reply SendResult × E
unfolding meta_send
configured_send decode c post_json = meta_send decode (λ payload. post_json (post_call c payload))

digits_plain : (s : String) → every is_digit s ≡ true → path_character s ≡ true
digits_plain [] h = refl
digits_plain (c ∷ s) h = ground (arith, digits_plain s)

decimal_plain : (s : String) → is_decimal s ≡ true → path_character s ≡ true
decimal_plain [] h = refl
decimal_plain (c ∷ s) h = ground (arith, digits_plain s)

after_major_plain : (s : String) → after_major s ≡ true → path_character s ≡ true
unfolding after_major
after_major_plain [] h = refl
after_major_plain (c ∷ s) h = ground (arith, after_major_plain s, decimal_plain s)

version_plain : (s : String) → graph_version_ok s ≡ true → path_character s ≡ true
unfolding graph_version_ok
version_plain (v ∷ d ∷ s) h = ground (arith, after_major_plain s)
version_plain _ h = absurd (cc h)

phone_plain : (s : String) → phone_number_id_ok s ≡ true → path_character s ≡ true
unfolding phone_number_id_ok
phone_plain (d ∷ s) h = ground (arith, digits_plain s)
phone_plain [] h = cc

-- An address of the Graph API: two segments of digits, dots and the letter v, after the host.
pub data Endpoint : String → Type 0 where
  messages :
      (version phone : String)
      → path_character version ≡ true
      → path_character phone ≡ true
      → Endpoint (graph_host ++ "/" ++ version ++ "/" ++ phone ++ "/messages")

token_visible : (s t : String) → require_text s ≡ ok t → is_blank s ≡ false
unfolding require_text
token_visible s t h = ground arith

accepted-Endpoint :
    {T : Type 0} (numbers : Numbers T) (c : MetaCloudConfig T) (payload : Value)
    → Returns
        (λ d. Endpoint (post_call d payload).url × (is_blank d.access_token ≡ false))
        (check_config numbers c)
unfolding check_config post_call
accepted-Endpoint numbers c payload =
    Returns-raise_if (not (graph_version_ok c.graph_version)) Error.value_error (λ version.
      Returns-raise_if (not (phone_number_id_ok c.phone_number_id)) Error.value_error (λ phone.
        Returns-run (require_text c.access_token) (λ t token.
          Returns-then (validate_timeout numbers c.connect_timeout) (
            Returns-then (validate_timeout numbers c.read_timeout) (
              Returns-ok (
                messages c.graph_version c.phone_number_id
                    (version_plain c.graph_version (negated_test _ version))
                    (phone_plain c.phone_number_id (negated_test _ phone)),
                token_visible c.access_token t token,
              ))))))

-- Under a configuration that its constructor accepts, every call posts to the Graph API: the version and
-- the phone number identifier add no separator, query or other host, and the token is not blank.
pub check_config-Endpoint :
    {T : Type 0} (numbers : Numbers T) (c d : MetaCloudConfig T) (payload : Value)
    → check_config numbers c ≡ ok d
    → Endpoint (post_call d payload).url × (is_blank d.access_token ≡ false)
check_config-Endpoint numbers c d payload h = (accepted-Endpoint numbers c payload).at d h
