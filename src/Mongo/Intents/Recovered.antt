-- ===== src/Mongo/Intents/Recovered.antt =====
-- The recovery of stale dispatches in src/healthassure_messaging/persistence/mongo.py.
use healthassure_messaging.Base.{
  ℕ, suc, ◌≤◌, String, ◌≡◌, ◌&&◌, Option, none, some, List, [], ◌∷◌, length, leb, Bool-cases, inl,
  inr, ◌⊎◌, arith,
}
use healthassure_messaging.Base.Int.{ℤ, pos}
use healthassure_messaging.Enums.{IntentState}
use healthassure_messaging.Errors.{Error, Result, ok, err}
use healthassure_messaging.ServiceContracts.{MessageIntent}
use healthassure_messaging.Json.{Value, Object}
use healthassure_messaging.Mongo.{Answer, Collection, Action, answered, continue_with}
use healthassure_messaging.Mongo.Documents.{require_epoch}
use healthassure_messaging.Mongo.Intents.{intent_from_document}
use healthassure_messaging.Mongo.Intents.Requests.{
  recovered_result, require_limit, max_recovery_limit,
}
use healthassure_messaging.Mongo.Intents.Repository.{
  complete, recover_each, recover_stale_dispatching,
}

-- A count that is within the number of candidates.
pub data Within (n : ℕ) : Result ℕ → Type 0 where
  counted : {k : ℕ} → k ≤ n → Within n (ok k)
  raised : {e : Error} → Within n (err e)

then-Within :
    {E A : Type 0} {n : ℕ} (r : Result A) (e : E) (f : A → Action E ℕ)
    → ((a : A) (e' : E) → Within n (f a e').0)
    → Within n (continue_with r e f).0
then-Within (ok a) e f w = w a e
then-Within (err x) e f w = raised

one_more :
    {E : Type 0} {n : ℕ} (m : Result ℕ) (c : Option MessageIntent) (e : E)
    → Within n m
    → Within (suc n) (continue_with m e λ k e'. (ok (elim c [ none ↦ k | some i ↦ suc k ]), e')).0
one_more (ok k) none e (counted h) = counted (omega (arith, h))
one_more (ok k) (some i) e (counted h) = counted (omega (arith, h))
one_more (err x) c e w = raised

module _ {E : Type 0} (collection : Collection E) (clock : E → ℤ × E) where
  each-Within :
      (candidates : List Value) (e : E)
      → Within (length candidates) (recover_each collection clock candidates e).0
  unfolding recover_each
  each-Within [] e = counted (omega arith)
  each-Within (v ∷ candidates) e = then-Within (intent_from_document v) e _ (λ intent e1.
      then-Within (recovered_result intent) e1 _ (λ result e2.
        then-Within (complete collection clock intent.intent_id IntentState.dispatching result e2).0
          _ _ (λ c e3. one_more _ c _ (each-Within candidates e3))))

-- An answer of at most so many documents.
abbrev pub AtMost : ℕ → Answer (List Value) → Type 0
AtMost n (Answer.answer vs) = length vs ≤ n
AtMost n _ = Unit

Within-more : (m n : ℕ) (r : Result ℕ) → m ≤ n → Within m r → Within n r
Within-more m n (ok k) h (counted w) = counted (omega (arith, h, w))
Within-more m n (err x) h raised = raised

limit_cases :
    (n : ℕ)
    → (1 ≤ n) × (require_limit (pos n) ≡ ok n) ⊎ (require_limit (pos n) ≡ err Error.value_error)
unfolding require_limit
limit_cases n = elim (Bool-cases (leb 1 n && leb n max_recovery_limit)) [
  | inl h ↦ inl (ground arith, rw h)
  | inr h ↦ inr (rw h)
]

module _ {E : Type 0} (collection : Collection E) (clock : E → ℤ × E) where
  listed-Within :
      (n : ℕ) (a : Answer (List Value)) (e : E)
      → AtMost n a
      → Within n (continue_with (answered a) e (recover_each collection clock)).0
  listed-Within n (Answer.answer vs) e h =
      Within-more (length vs) n _ h (each-Within collection clock vs e)
  listed-Within n Answer.duplicate_key e h = raised
  listed-Within n Answer.failed e h = raised

-- Over a collection whose `find` gives no more documents than a limit of at least one, a recovery
-- counts no more intents than its own limit, whatever that limit is and the calls answer otherwise.
pub recover_stale_dispatching-Within :
    {E : Type 0} (collection : Collection E) (clock : E → ℤ × E)
    → ((query : Object) (keys : List String) (n : ℕ) (e : E)
        → 1 ≤ n
        → AtMost n (collection.find query keys n e).0)
    → (stale_before : ℤ) (limit : ℕ) (e : E)
    → Within limit (recover_stale_dispatching collection clock stale_before (pos limit) e).0
unfolding recover_stale_dispatching
recover_stale_dispatching-Within collection clock limited stale_before limit e =
    then-Within (require_epoch stale_before) e _ (λ t e1. elim (limit_cases limit) [
      | inl (least, taken) ↦
          rw taken (listed-Within collection clock limit _ _ (limited _ _ limit e1 least))
      | inr refused_limit ↦ rw refused_limit raised
    ])
