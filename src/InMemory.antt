-- ===== src/InMemory.antt =====
-- src/healthassure_messaging/testing.py: the in-memory policies and the in-memory intent
-- repository. Its lock makes each operation one step.
pub mod Port
pub mod Claim
pub mod Taken
pub mod Exclusive
use healthassure_messaging.Base.{
  String, Bool, true, false, not, ◌&&◌, ◌||◌, Option, none, some, List, [], ◌∷◌, ◌++◌, ◌==◌,
  if◌then◌else◌, elem,
}
use healthassure_messaging.Enums.{IntentState, terminal_state, state_eq, is_pending}
use healthassure_messaging.Errors.{Error, Result, ok, err, ◌>>=◌, ◌>>◌, raise_if, require_text}
use healthassure_messaging.Phone.{validate_e164_number}
use healthassure_messaging.ServiceContracts.{
  RecipientEligibility, DispatchResult, MessageIntent, IntentCreationResult, replace_state,
  replace_result,
}

pub record InMemoryRecipientEligibilityPolicy : Type 0 where
  pub consented : List String
  pub suppressed : List String

unfoldable pub validated_recipients : List String → Result (List String)
validated_recipients [] = ok []
validated_recipients (r ∷ rs) = do
  v ← validate_e164_number r
  vs ← validated_recipients rs
  ok (v ∷ vs)

unfoldable pub new_recipient_policy :
    List String → List String → Result InMemoryRecipientEligibilityPolicy
new_recipient_policy consented_recipients suppressed_recipients = do
  consented ← validated_recipients consented_recipients
  suppressed ← validated_recipients suppressed_recipients
  ok (record { consented = consented; suppressed = suppressed })

unfoldable pub evaluate : InMemoryRecipientEligibilityPolicy → String → Result RecipientEligibility
evaluate policy recipient = do
  normalized ← validate_e164_number recipient
  ok (record {
    consented = elem normalized policy.consented;
    suppressed = elem normalized policy.suppressed;
  })

-- Pairs of a recipient and a purpose.
abbrev pub InMemoryTextSessionPolicy : Type 0
InMemoryTextSessionPolicy = List (String × String)

unfoldable pub new_session_policy : List (String × String) → Result InMemoryTextSessionPolicy
new_session_policy [] = ok []
new_session_policy ((recipient, purpose_key) ∷ rest) = do
  require_text purpose_key
  v ← validate_e164_number recipient
  vs ← new_session_policy rest
  ok ((v, purpose_key) ∷ vs)

unfoldable pub elem_pair : String → String → List (String × String) → Bool
elem_pair a b [] = false
elem_pair a b ((x, y) ∷ rest) = (a == x && b == y) || elem_pair a b rest

unfoldable pub has_active_session : InMemoryTextSessionPolicy → String → String → Result Bool
has_active_session policy recipient purpose_key = do
  normalized ← validate_e164_number recipient
  require_text purpose_key
  ok (elem_pair normalized purpose_key policy)

-- `(source_flow, idempotency_key)`.
abbrev pub Scope : Type 0
Scope = String × String

abbrev pub scope_eq : Scope → Scope → Bool
scope_eq a b = a.0 == b.0 && a.1 == b.1

abbrev pub scope_of : MessageIntent → Scope
scope_of i = (i.source_flow, i.idempotency_key)

pub data Event : Type 0 where
  created claimed completed : Event

-- `_by_scope`, `_scope_by_id` and `_events`; the event sink repeats the events.
pub record InMemoryIntentRepository : Type 0 where
  pub by_scope : List (Scope × MessageIntent)
  pub scope_by_id : List (String × Scope)
  pub events : List Event

-- The two dicts. A write replaces the value of a key that is there.
unfoldable pub intent_at : Scope → List (Scope × MessageIntent) → Option MessageIntent
intent_at k [] = none
intent_at k ((j, i) ∷ rest) = if scope_eq j k then some i else intent_at k rest

unfoldable pub put_intent :
    Scope → MessageIntent → List (Scope × MessageIntent) → List (Scope × MessageIntent)
put_intent k v [] = (k, v) ∷ []
put_intent k v ((j, i) ∷ rest) =
    if scope_eq j k then (j, v) ∷ rest else (j, i) ∷ put_intent k v rest

unfoldable pub scope_at : String → List (String × Scope) → Option Scope
scope_at k [] = none
scope_at k ((j, s) ∷ rest) = if j == k then some s else scope_at k rest

unfoldable pub put_scope : String → Scope → List (String × Scope) → List (String × Scope)
put_scope k v [] = (k, v) ∷ []
put_scope k v ((j, s) ∷ rest) = if j == k then (j, v) ∷ rest else (j, s) ∷ put_scope k v rest

abbrev pub Repository : Type 0
Repository = InMemoryIntentRepository

unfoldable pub get : String → String → Repository → Result (Option MessageIntent) × Repository
get source_flow idempotency_key repo = (
  (do
    require_text source_flow
    require_text idempotency_key
    ok (intent_at (source_flow, idempotency_key) repo.by_scope)),
  repo,
)

-- The part of `create_if_absent` for a scope that is free.
unfoldable pub create_new : MessageIntent → Repository → Result IntentCreationResult × Repository
create_new intent repo = elim (scope_at intent.intent_id repo.scope_by_id) [
  | some s ↦ (err Error.value_error, repo)
  | none ↦ (
    ok (record { intent = intent; created = true }),
    record {
      by_scope = put_intent (scope_of intent) intent repo.by_scope;
      scope_by_id = put_scope intent.intent_id (scope_of intent) repo.scope_by_id;
      events = repo.events ++ (Event.created ∷ []);
    },
  )
]

unfoldable pub create_if_absent :
    MessageIntent → Repository → Result IntentCreationResult × Repository
create_if_absent intent repo = elim (intent_at (scope_of intent) repo.by_scope) [
  | some existing ↦ (ok (record { intent = existing; created = false }), repo)
  | none ↦ create_new intent repo
]

-- `self._by_scope[scope] = intent`, with its event.
unfoldable pub store : Scope → MessageIntent → Event → Repository → Repository
store scope intent event repo = record repo {
  by_scope = put_intent scope intent repo.by_scope;
  events = repo.events ++ (event ∷ []);
}

-- A replacement that the constructor refuses raises before anything is stored.
unfoldable pub store_checked :
    Scope → Event → Result MessageIntent → Repository → Result (Option MessageIntent) × Repository
store_checked scope event (ok intent) repo = (ok (some intent), store scope intent event repo)
store_checked scope event (err e) repo = (err e, repo)

-- `self._by_scope[scope]` for the scope of an identifier; a missing scope is a KeyError.
unfoldable pub claim_at : Scope → Repository → Result (Option MessageIntent) × Repository
claim_at scope repo = elim (intent_at scope repo.by_scope) [
  | none ↦ (err Error.key_error, repo)
  | some intent ↦
      if is_pending intent.state
      then store_checked scope Event.claimed (replace_state intent IntentState.dispatching) repo
      else (ok none, repo)
]

unfoldable pub claim_known : Option Scope → Repository → Result (Option MessageIntent) × Repository
claim_known none repo = (ok none, repo)
claim_known (some scope) repo = claim_at scope repo

unfoldable pub claim : String → Repository → Result (Option MessageIntent) × Repository
claim intent_id repo = elim (require_text intent_id) [
  | err e ↦ (err e, repo)
  | ok k ↦ claim_known (scope_at intent_id repo.scope_by_id) repo
]

unfoldable pub complete_at :
    Scope → IntentState → DispatchResult → Repository → Result (Option MessageIntent) × Repository
complete_at scope expected_state result repo = elim (intent_at scope repo.by_scope) [
  | none ↦ (err Error.key_error, repo)
  | some intent ↦
      if state_eq intent.state expected_state
      then store_checked scope Event.completed
          (replace_result intent (terminal_state result.disposition) result) repo
      else (ok none, repo)
]

unfoldable pub complete_known :
    Option Scope
    → IntentState
    → DispatchResult
    → Repository
    → Result (Option MessageIntent) × Repository
complete_known none expected_state result repo = (ok none, repo)
complete_known (some scope) expected_state result repo =
    complete_at scope expected_state result repo

unfoldable pub complete :
    String → IntentState → DispatchResult → Repository → Result (Option MessageIntent) × Repository
complete intent_id expected_state result repo = elim (require_text intent_id) [
  | err e ↦ (err e, repo)
  | ok k ↦ complete_known (scope_at intent_id repo.scope_by_id) expected_state result repo
]
