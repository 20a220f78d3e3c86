-- ===== src/InMemory/Exclusive.antt =====
-- The in-memory repository (src/healthassure_messaging/testing.py) as a transition system: a claim is
-- granted once.
use healthassure_messaging.Base.{String, ◌≡◌, refl, none, some}
use healthassure_messaging.Enums.{IntentState}
use healthassure_messaging.Errors.{ok, require_text}
use healthassure_messaging.ServiceContracts.{DispatchResult, MessageIntent}
use healthassure_messaging.InMemory.{
  Repository, claim, claim_at, claim_known, store, create_if_absent, complete,
}
use healthassure_messaging.InMemory.Claim.{claim-stored, intent_at-put_intent}
use healthassure_messaging.InMemory.Taken.{Taken, create-Taken, claim-Taken, complete-Taken}

-- One operation, of any caller and with any arguments.
pub data Step : Repository → Repository → Type 0 where
  created : {r : Repository} (i : MessageIntent) → Step r (create_if_absent i r).1
  claimed : {r : Repository} (id : String) → Step r (claim id r).1
  completed :
      {r : Repository} (id : String) (st : IntentState) (d : DispatchResult)
      → Step r (complete id st d r).1

pub data Steps : Repository → Repository → Type 0 where
  done : {r : Repository} → Steps r r
  after : {a b c : Repository} → Step a b → Steps b c → Steps a c

Step-Taken : (id : String) {a b : Repository} → Step a b → Taken id a → Taken id b
Step-Taken id (created {r = r} i) t = create-Taken id r i t
Step-Taken id (claimed {r = r} j) t = claim-Taken id j r t
Step-Taken id (completed {r = r} j st d) t = complete-Taken id j st d r t

Steps-Taken : (id : String) {a b : Repository} → Steps a b → Taken id a → Taken id b
Steps-Taken id done t = t
Steps-Taken id (after s rest) t = Steps-Taken id rest (Step-Taken id s t)

no_claim :
    (id : String) (r : Repository) → require_text id ≡ ok id → Taken id r → (claim id r).0 ≡ ok none
unfolding claim claim_known claim_at
no_claim id r h t =
    rw (h, claim) (rw (t.known, claim_known) (rw (t.stored, claim_at) (rw t.taken refl)))

-- Once a claim of an identifier has returned an intent, a later claim of it returns none, after any
-- sequence of operations with any arguments.
pub claim_once :
    (id : String) (a b : Repository) (i : MessageIntent)
    → (claim id a).0 ≡ ok (some i)
    → Steps (claim id a).1 b
    → (claim id b).0 ≡ ok none
unfolding store
claim_once id a b i h steps =
    let (k, at, text, stored, settled) = claim-stored id a i h in
    no_claim id b text (
      Steps-Taken id steps (
        rw stored (record {
          scope = k;
          intent = i;
          known = at;
          stored = intent_at-put_intent k i a.by_scope;
          taken = settled;
        })))
