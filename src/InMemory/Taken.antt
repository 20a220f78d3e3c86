-- ===== src/InMemory/Taken.antt =====
-- What the operations of the in-memory repository (src/healthassure_messaging/testing.py) leave of an
-- intent that is no longer pending.
use healthassure_messaging.Base.{
  String, ◌≡◌, refl, ◌∙◌, ap, inl, inr, true, false, Option, none, some, List, [], ◌∷◌, ◌==◌, arith,
  Bool-cases, Option-cases, eq_iff,
}
use healthassure_messaging.Enums.{
  SendDisposition, IntentState, terminal_state, state_eq, is_pending,
}
use healthassure_messaging.Errors.{Result, ok, err, require_text, Result-cases}
use healthassure_messaging.ServiceContracts.{
  DispatchResult, MessageIntent, replace_state, replace_result,
}
use healthassure_messaging.ServiceContracts.Checks.{check_intent-Checks}
use healthassure_messaging.InMemory.{
  Repository, Event, Scope, scope_eq, scope_of, intent_at, put_intent, scope_at, put_scope, claim,
  claim_at, claim_known, store, store_checked, create_if_absent, create_new, complete, complete_at,
  complete_known,
}
use healthassure_messaging.InMemory.Claim.{claimed_state, intent_at-put_intent}

-- The identifier names a stored intent that is no longer pending.
pub record Taken (id : String) (r : Repository) : Type 0 where
  pub scope : Scope
  pub intent : MessageIntent
  pub known : scope_at id r.scope_by_id ≡ some scope
  pub stored : intent_at scope r.by_scope ≡ some intent
  pub taken : is_pending intent.state ≡ false

intent_at-put_other :
    (j k : Scope) (v : MessageIntent) (d : List (Scope × MessageIntent))
    → scope_eq j k ≡ false
    → intent_at k (put_intent j v d) ≡ intent_at k d
unfolding intent_at put_intent
intent_at-put_other j k v [] h = rw h refl
intent_at-put_other j k v ((l, i) ∷ d) h = elim (Bool-cases (scope_eq l j)) [
  | inl e ↦ ground (arith, eq_iff l.0 j.0, eq_iff l.1 j.1)
  | inr e ↦ rw (e, intent_at) (ground (arith, intent_at-put_other j k v d h))
]

scope_at-put_other :
    (j k : String) (v : Scope) (d : List (String × Scope))
    → (j == k) ≡ false
    → scope_at k (put_scope j v d) ≡ scope_at k d
unfolding scope_at put_scope
scope_at-put_other j k v [] h = rw h refl
scope_at-put_other j k v ((l, i) ∷ d) h = ground (arith, eq_iff l j, scope_at-put_other j k v d h)

scope_eq-true : (j k : Scope) → scope_eq j k ≡ true → j ≡ k
scope_eq-true (a, b) (c, d) h = ground (arith, eq_iff a c, eq_iff b d)

intent_at-put_same :
    (j k : Scope) (v : MessageIntent) (d : List (Scope × MessageIntent))
    → scope_eq j k ≡ true
    → intent_at k (put_intent j v d) ≡ some v
intent_at-put_same j k v d h = rw (scope_eq-true j k h) (intent_at-put_intent k v d)

store-Taken :
    (id : String) (r : Repository) (k : Scope) (v : MessageIntent) (e : Event)
    → is_pending v.state ≡ false
    → Taken id r
    → Taken id (store k v e r)
unfolding store
store-Taken id r k v e p t = elim (Bool-cases (scope_eq k t.scope)) [
  | inl q ↦ record {
    scope = t.scope;
    intent = v;
    known = t.known;
    stored = intent_at-put_same k t.scope v r.by_scope q;
    taken = p;
  }
  | inr q ↦ record {
    scope = t.scope;
    intent = t.intent;
    known = t.known;
    stored = intent_at-put_other k t.scope v r.by_scope q ∙ t.stored;
    taken = t.taken;
  }
]

terminal_taken : (d : SendDisposition) → is_pending (terminal_state d) ≡ false
terminal_taken SendDisposition.accepted = refl
terminal_taken SendDisposition.rejected = refl
terminal_taken SendDisposition.unknown = refl

completed_state :
    (i j : MessageIntent) (d : DispatchResult)
    → replace_result i (terminal_state d.disposition) d ≡ ok j
    → is_pending j.state ≡ false
unfolding replace_result
completed_state i j d h =
    ap (λ x. is_pending x.state) ((check_intent-Checks _).returns j h)
    ∙ terminal_taken d.disposition

store_checked-Taken :
    (id : String) (r : Repository) (k : Scope) (e : Event) (m : Result MessageIntent)
    → ((v : MessageIntent) → m ≡ ok v → is_pending v.state ≡ false)
    → Taken id r
    → Taken id (store_checked k e m r).1
unfolding store_checked
store_checked-Taken id r k e (ok v) p t = store-Taken id r k v e (p v refl) t
store_checked-Taken id r k e (err x) p t = t

-- A scope, or an identifier, that is not stored is not the taken one.
new_scope :
    (id : String) (k : Scope) (r : Repository)
    → intent_at k r.by_scope ≡ none
    → (t : Taken id r) → scope_eq k t.scope ≡ false
new_scope id k r e t = elim (Bool-cases (scope_eq k t.scope)) [
  | inl q ↦ absurd (cc (e, t.stored, scope_eq-true k t.scope q))
  | inr q ↦ q
]

new_id :
    (id j : String) (r : Repository)
    → scope_at j r.scope_by_id ≡ none
    → Taken id r
    → (j == id) ≡ false
new_id id j r e t = elim (Bool-cases (j == id)) [
  | inl q ↦ absurd (cc (e, t.known, (eq_iff j id).0 q))
  | inr q ↦ q
]

pub create-Taken :
    (id : String) (r : Repository) (i : MessageIntent)
    → Taken id r
    → Taken id (create_if_absent i r).1
unfolding create_if_absent create_new
create-Taken id r i t = elim (Option-cases (intent_at (scope_of i) r.by_scope)) [
  | inr (j, e) ↦ rw (e, create_if_absent) t
  | inl e ↦ elim (Option-cases (scope_at i.intent_id r.scope_by_id)) [
    | inr (k, f) ↦ rw (e, create_if_absent) (rw (f, create_new) t)
    | inl f ↦
        rw (e, create_if_absent)
          (rw (f, create_new)
            (record {
              scope = t.scope;
              intent = t.intent;
              taken = t.taken;
              known =
                  scope_at-put_other i.intent_id id (scope_of i) r.scope_by_id
                    (new_id id i.intent_id r f t)
                  ∙ t.known;
              stored =
                  intent_at-put_other (scope_of i) t.scope i r.by_scope
                    (new_scope id (scope_of i) r e t)
                  ∙ t.stored;
            }))
  ]
]

claim_at-Taken : (id : String) (k : Scope) (r : Repository) → Taken id r → Taken id (claim_at k r).1
unfolding claim_at
claim_at-Taken id k r t = elim (Option-cases (intent_at k r.by_scope)) [
  | inl e ↦ rw (e, claim_at) t
  | inr (i, e) ↦ elim (Bool-cases (is_pending i.state)) [
    | inl p ↦
        rw (e, claim_at)
          (rw p (
            store_checked-Taken id r k Event.claimed (replace_state i IntentState.dispatching)
              (claimed_state i) t))
    | inr p ↦ rw (e, claim_at) (rw p t)
  ]
]

claim_known-Taken :
    (id : String) (o : Option Scope) (r : Repository) → Taken id r → Taken id (claim_known o r).1
unfolding claim_known
claim_known-Taken id none r t = t
claim_known-Taken id (some k) r t = claim_at-Taken id k r t

pub claim-Taken : (id j : String) (r : Repository) → Taken id r → Taken id (claim j r).1
unfolding claim
claim-Taken id j r t = elim (Result-cases (require_text j)) [
  | inl (v, e) ↦ rw (e, claim) (claim_known-Taken id (scope_at j r.scope_by_id) r t)
  | inr (x, e) ↦ rw (e, claim) t
]

complete_at-Taken :
    (id : String) (k : Scope) (st : IntentState) (d : DispatchResult) (r : Repository)
    → Taken id r
    → Taken id (complete_at k st d r).1
unfolding complete_at
complete_at-Taken id k st d r t = elim (Option-cases (intent_at k r.by_scope)) [
  | inl e ↦ rw (e, complete_at) t
  | inr (i, e) ↦ elim (Bool-cases (state_eq i.state st)) [
    | inl p ↦
        rw (e, complete_at)
          (rw p (
            store_checked-Taken id r k Event.completed
              (replace_result i (terminal_state d.disposition) d) (λ v. completed_state i v d) t))
    | inr p ↦ rw (e, complete_at) (rw p t)
  ]
]

complete_known-Taken :
    (id : String) (o : Option Scope) (st : IntentState) (d : DispatchResult) (r : Repository)
    → Taken id r
    → Taken id (complete_known o st d r).1
unfolding complete_known
complete_known-Taken id none st d r t = t
complete_known-Taken id (some k) st d r t = complete_at-Taken id k st d r t

pub complete-Taken :
    (id j : String) (st : IntentState) (d : DispatchResult) (r : Repository)
    → Taken id r
    → Taken id (complete j st d r).1
unfolding complete
complete-Taken id j st d r t = elim (Result-cases (require_text j)) [
  | inl (v, e) ↦ rw (e, complete) (complete_known-Taken id (scope_at j r.scope_by_id) st d r t)
  | inr (x, e) ↦ rw (e, complete) t
]
