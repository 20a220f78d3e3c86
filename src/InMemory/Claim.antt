-- ===== src/InMemory/Claim.antt =====
-- The two dicts of the in-memory repository (src/healthassure_messaging/testing.py), and what a claim
-- leaves behind.
use healthassure_messaging.Base.{
  String, ◌≡◌, refl, inl, inr, false, some, List, [], ◌∷◌, arith, Bool-cases, Option-cases, eq_refl,
}
use healthassure_messaging.Base.Text.{is_blank}
use healthassure_messaging.Enums.{IntentState, is_pending}
use healthassure_messaging.Errors.{ok, require_text, Result-cases}
use healthassure_messaging.ServiceContracts.{MessageIntent, replace_state, check_intent}
use healthassure_messaging.InMemory.{
  Repository, Event, Scope, scope_eq, intent_at, put_intent, scope_at, claim, claim_at, claim_known,
  store, store_checked,
}

pub intent_at-put_intent :
    (k : Scope) (v : MessageIntent) (d : List (Scope × MessageIntent))
    → intent_at k (put_intent k v d) ≡ some v
unfolding intent_at put_intent
intent_at-put_intent k v [] = rw (eq_refl, eq_refl) refl
intent_at-put_intent k v ((j, i) ∷ d) = elim (Bool-cases (scope_eq j k)) [
  | inl e ↦ rw (e, intent_at) (rw e refl)
  | inr e ↦ rw (e, intent_at) (rw e (intent_at-put_intent k v d))
]

-- A claimed intent is not pending.
pub claimed_state :
    (i j : MessageIntent)
    → replace_state i IntentState.dispatching ≡ ok j
    → is_pending j.state ≡ false
unfolding replace_state check_intent
claimed_state i j h = ground arith

claim_at-stored :
    (k : Scope) (repo : Repository) (i : MessageIntent)
    → (claim_at k repo).0 ≡ ok (some i)
    → ((claim_at k repo).1 ≡ store k i Event.claimed repo) × (is_pending i.state ≡ false)
unfolding claim_at store_checked
claim_at-stored k repo i h = elim (Option-cases (intent_at k repo.by_scope)) [
  | inl e ↦ absurd (ground arith)
  | inr (j, e) ↦ elim (Bool-cases (is_pending j.state)) [
    | inl p ↦ elim (Result-cases (replace_state j IntentState.dispatching)) [
      | inl (v, r) ↦ (ground arith, ground (arith, claimed_state j i))
      | inr (x, r) ↦ absurd (ground arith)
    ]
    | inr p ↦ absurd (ground arith)
  ]
]

-- What a claim that returns an intent has found and stored.
pub claim-stored :
    (id : String) (repo : Repository) (i : MessageIntent)
    → (claim id repo).0 ≡ ok (some i)
    → (k : Scope) × (scope_at id repo.scope_by_id ≡ some k)
      × (require_text id ≡ ok id)
      × ((claim id repo).1 ≡ store k i Event.claimed repo)
      × (is_pending i.state ≡ false)
unfolding claim claim_known require_text
claim-stored id repo i h = elim (Option-cases (scope_at id repo.scope_by_id)) [
  | inl e ↦ absurd (ground arith)
  | inr (k, e) ↦ elim (Bool-cases (is_blank id)) [
    | inl b ↦ absurd (ground arith)
    | inr b ↦
        let found = claim_at-stored k repo i (ground arith) in
        (k, e, ground arith, ground (arith, found.0), found.1)
  ]
]
