-- ===== src/Lib.antt =====
-- healthassure-messaging, a Python library that sends WhatsApp messages for other services: a model
-- of its code under src/healthassure_messaging, and the theorems that make it correct.
--
-- The program. A caller hands `MessagingService` (service.py) a recipient, a template or a text and
-- an idempotency scope. The service normalizes the number (phone.py), builds the message
-- (templates.py, contracts.py), and looks for an intent of that scope in a repository (ports.py). A
-- new request is serialized (serialization.py) and fingerprinted, and stored as a pending intent; the
-- policies are asked; the intent is claimed; the gateway (provider.py) calls the selected provider
-- once; and the result is stored with the intent. The Meta provider (providers/meta.py) posts JSON
-- over a bounded transport (http.py) and classifies the answer. Delivery events come back as signed
-- webhooks (providers/meta_webhooks.py, webhooks.py).
--
-- Files and code.
--   Base, Errors            helpers; the exceptions and the result type, the `_require_…` tests
--   Enums, Contracts, ServiceContracts
--                           enums.py, contracts.py, service_contracts.py: a dataclass is a record,
--                           `check_…` is its `__post_init__`, `replace_…` is dataclasses.replace
--   Phone                   phone.py; the patterns are tests on texts
--   Provider                provider.py; `World` is the outside with the calls of providers so far
--   Json, Serialization     serialization.py; the text form of JSON is the parameter `JsonCodec`
--   Templates               templates.py
--   Service                 service.py and ports.py; the methods are named as in the source without
--                           the leading underscore, their parts after the branches they stand for
--   InMemory                testing.py, and its objects as the service's ports (InMemory/Port)
--   Http                    http.py; what the requests library gives is an argument
--   Meta                    providers/meta.py; json.loads on bytes, the transport and the type of
--                           timeouts are parameters
--   Webhooks                webhooks.py and providers/meta_webhooks.py
--   Mongo                   persistence/mongo.py: the readers and writers of its documents, and its four
--                           ports over a collection (Intents/Repository, Policies/Policy,
--                           Sessions/Policy, Templates/Catalog); Indexes is the set-up
--   Examples                runs, with one example for each result that has hypotheses
--
-- State. Everything outside the service (the repository, the policies, the providers and other
-- processes) is one state of an arbitrary type `E`; each call of a port is a function on it whose
-- reply is a value, a value of a wrong type or an exception. What such calls do is unrestricted, so
-- a theorem on the service holds whatever other processes do between two calls. Texts are lists of
-- characters, bytes are numbers, integers are unbounded as in Python. Loops are structural recursion.
-- Only `decimal`, for `str` of a number, runs on fuel: the number's successor, since each digit but the
-- last takes a number to less than itself.
--
-- The MongoDB persistence stores its records as documents, which are JSON objects here. pymongo is a
-- parameter: `Collection` holds the calls that the package makes, as functions on the outside whose
-- answer may be an error (`Answer`). What an update does to a document is the hypothesis
-- `Applied`, or `AppliedAt` where it has keys of an attempt (Mongo/Updates), which state the
-- documented operators.
--
-- Not modelled: numbers with a fraction in documents (the reader refuses them all, the code takes 1.0 for
-- a schema version), tests of static types, texts with lone surrogates, a serialized request given as
-- bytes, and the release tooling.
pub mod Base
pub mod Errors
pub mod Phone
pub mod Enums
pub mod Contracts
pub mod ServiceContracts
pub mod Provider
pub mod Json
pub mod Serialization
pub mod Templates
pub mod Service
pub mod InMemory
pub mod Http
pub mod Meta
pub mod Webhooks
pub mod Mongo
pub mod Examples
