-- ===== src/Examples/World.antt =====
-- A small deployment: one fake provider, one recipient who has consented, one template alias.
use healthassure_messaging.Base.{String, none, some, [], ◌∷◌}
use healthassure_messaging.Enums.{
  SendDisposition, IntentState, TemplateComponentType, TemplateParameterType,
}
use healthassure_messaging.Contracts.{Message, MessageRequest, SendResult}
use healthassure_messaging.ServiceContracts.{TemplateAlias, MessageIntent}
use healthassure_messaging.Provider.{Provider, ProviderRegistry, Reply, World}
use healthassure_messaging.Json.{JsonCodec, Loaded}
use healthassure_messaging.Serialization.{envelope}
use healthassure_messaging.Service.{MessagingService}
use healthassure_messaging.InMemory.{Repository}
use healthassure_messaging.InMemory.Port.{in_memory_ports}

abbrev pub recipient : String
recipient = "+919876543210"

-- The answer of a provider that accepts every message.
abbrev pub accepted : MessageRequest → SendResult
accepted q = record {
  provider_key = "fake";
  disposition = SendDisposition.accepted;
  correlation_id = q.correlation_id;
  provider_message_id = some "m-1";
  provider_status = none;
  error = none;
}

abbrev pub fake : Provider Repository
fake = record { key = "fake"; send = λ q e. (Reply.value (accepted q), e) }

abbrev pub providers : ProviderRegistry Repository
providers = ("fake", fake) ∷ []

abbrev pub request : MessageRequest
request = record {
  recipient = recipient;
  message = Message.text "hello";
  correlation_id = "c-1";
  idempotency_key = "k-1";
}

-- A codec that knows one document.
abbrev pub codec : JsonCodec
codec = record { dumps = λ v. "{}"; loads = λ s. Loaded.document (envelope request) }

abbrev pub alias : TemplateAlias
alias = record {
  key = "welcome";
  provider_key = "fake";
  template_name = "welcome_v1";
  language_code = "en";
  components =
      record {
        component_type = TemplateComponentType.body;
        parameter_names = "name" ∷ [];
        parameter_types = TemplateParameterType.text ∷ [];
        sub_type = none;
        index = none;
      }
      ∷ [];
}

abbrev pub service : MessagingService Repository
service = record {
  ports =
      in_memory_ports (("welcome", alias) ∷ [])
        (record { consented = recipient ∷ []; suppressed = [] }) ((recipient, "support") ∷ []) "c-1"
        "i-1";
  providers = providers;
  codec = codec;
  digests = record { sha256 = λ s. "f"; hmac_sha256 = λ k s. "g" };
  text_provider_key = "fake";
  default_region = some "IN";
  sensitive_fingerprint_key = none;
}

abbrev pub empty : World Repository
empty = record { env = record { by_scope = []; scope_by_id = []; events = [] }; sent = [] }

-- A claimed intent.
abbrev pub claimed : MessageIntent
claimed = record {
  intent_id = "i-1";
  source_flow = "flow";
  idempotency_key = "k-1";
  actor_id = "a-1";
  provider_key = "fake";
  correlation_id = "c-1";
  request_fingerprint = "f";
  serialized_request = "{}";
  state = IntentState.dispatching;
  result = none;
}
