-- ===== src/Provider.antt =====
-- src/healthassure_messaging/provider.py: the registry of providers, the gateway that calls the
-- selected one, and the fake provider. `E` is the state of everything outside the package.
pub mod Registry
pub mod Gateway
use healthassure_messaging.Base.{
  String, Bool, true, false, not, ◌||◌, Option, none, some, List, [], ◌∷◌, ◌++◌, ◌==◌,
  if◌then◌else◌, map,
}
use healthassure_messaging.Base.Text.{is_blank}
use healthassure_messaging.Errors.{Error, Result, ok, err, ◌>>=◌, ◌>>◌, raise_if}
use healthassure_messaging.Enums.{SendDisposition}
use healthassure_messaging.Contracts.{
  NormalizedError, MessageRequest, SendResult, check_send_result,
}

-- How a call of an injected object ends: with a value of the documented type, with a value of
-- another type, or with an exception.
pub data Reply {ℓ} (A : Type ℓ) : Type ℓ where
  value : A → Reply A
  invalid : Reply A
  raised : Error → Reply A

pub record Provider (E : Type 0) : Type 0 where
  pub key : String
  pub send : MessageRequest → E → Reply SendResult × E

-- The outside, with the calls of `provider.send` made so far, the last one first, each under the key
-- by which the gateway selected the provider.
pub record World (E : Type 0) : Type 0 where
  pub env : E
  pub sent : List (String × MessageRequest)

-- `_validate_key`.
unfoldable pub validate_key : String → Result String
validate_key key = if is_blank key then err Error.provider_registration else ok key

-- The dict `_providers`, in insertion order.
abbrev pub ProviderRegistry : Type 0 → Type 0
ProviderRegistry E = List (String × Provider E)

-- What the gateway makes of the provider's reply. Any object passes the `cast`; one that is no
-- `SendResult` fails at the first attribute.
unfoldable pub accept_reply : String → MessageRequest → Reply SendResult → Result SendResult
accept_reply provider_key request (Reply.value result) = do
  raise_if (not (result.provider_key == provider_key)) Error.provider_contract
  raise_if (not (result.correlation_id == request.correlation_id)) Error.provider_contract
  ok result
accept_reply provider_key request Reply.invalid = err Error.attribute_error
accept_reply provider_key request (Reply.raised Error.provider_not_found) =
    err Error.provider_contract
accept_reply provider_key request (Reply.raised e) = err e

module _ {E : Type 0} where
  unfoldable pub keys : ProviderRegistry E → List String
  keys providers = map (λ p. p.0) providers

  unfoldable pub find_provider : String → ProviderRegistry E → Option (Provider E)
  find_provider key [] = none
  find_provider key ((k, p) ∷ rest) = if k == key then some p else find_provider key rest

  unfoldable pub register : ProviderRegistry E → String → Provider E → Result (ProviderRegistry E)
  register providers key provider = do
    validated_key ← validate_key key
    raise_if (elim (find_provider validated_key providers) [ none ↦ false | some p ↦ true ])
        Error.duplicate_provider
    raise_if (not (provider.key == validated_key)) Error.provider_registration
    ok (providers ++ ((validated_key, provider) ∷ []))

  unfoldable pub get : ProviderRegistry E → String → Result (Provider E)
  get providers key =
      if is_blank key then err Error.provider_not_found else elim (find_provider key providers) [
        | none ↦ err Error.provider_not_found
        | some p ↦ ok p
      ]

  -- `provider.send(request)`, recorded under the key that selected the provider.
  unfoldable pub invoke :
      Provider E → String → MessageRequest → World E → Reply SendResult × World E
  invoke provider provider_key request w =
      let (reply, env) = provider.send request w.env in
      (reply, record w { env = env; sent = (provider_key, request) ∷ w.sent })

  -- `MessagingGateway.send`.
  unfoldable pub gateway_send :
      ProviderRegistry E → String → MessageRequest → World E → Result SendResult × World E
  gateway_send providers provider_key request w = elim (get providers provider_key) [
    | ok provider ↦
        let (reply, w') = invoke provider provider_key request w in
        (accept_reply provider_key request reply, w')
    | err e ↦ (err e, w)
  ]

-- `FakeMessagingProvider`: the constructor's arguments, and the requests received.
pub record FakeMessagingProvider : Type 0 where
  pub key : String
  pub disposition : SendDisposition
  pub provider_message_id : Option String
  pub provider_status : Option String
  pub error : Option NormalizedError
  pub received_requests : List MessageRequest

unfoldable pub new_fake :
    String
    → SendDisposition
    → Option String
    → Option String
    → Option NormalizedError
    → Result FakeMessagingProvider
new_fake key disposition message_id status error = do
  validated_key ← validate_key key
  ok (record {
    key = validated_key;
    disposition = disposition;
    provider_message_id = message_id;
    provider_status = status;
    error = error;
    received_requests = [];
  })

unfoldable pub fake_send :
    MessageRequest → FakeMessagingProvider → Result SendResult × FakeMessagingProvider
fake_send request fake = (
  check_send_result (record {
    provider_key = fake.key;
    disposition = fake.disposition;
    correlation_id = request.correlation_id;
    provider_message_id = fake.provider_message_id;
    provider_status = fake.provider_status;
    error = fake.error;
  }),
  record fake { received_requests = fake.received_requests ++ (request ∷ []) },
)
