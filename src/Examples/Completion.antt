-- ===== src/Examples/Completion.antt =====
-- The completion of the claimed intent of the records, after the code in
-- src/healthassure_messaging/persistence/mongo.py.
use healthassure_messaging.Base.{
  ℕ, [], ◌∷◌, String, ◌≡◌, refl, sym, ap, ◌∙◌, false, none, some, eq_iff, arith, ◌==◌,
}
use healthassure_messaging.Base.Int.{ℤ, pos}
use healthassure_messaging.Base.Text.{is_blank, is_space}
use healthassure_messaging.Enums.{IntentState, state_value, terminal_state}
use healthassure_messaging.Errors.{ok, require_text, require_optional_text}
use healthassure_messaging.Contracts.{check_error}
use healthassure_messaging.ServiceContracts.{DispatchResult, MessageIntent, check_dispatch_result}
use healthassure_messaging.Json.{Value, Array, Object, nil, cons, end, field, get, has}
use healthassure_messaging.Mongo.Documents.{require_epoch, nat, array_at, doc_int, int_value}
use healthassure_messaging.Mongo.Updates.{AppliedAt, operands, put_at}
use healthassure_messaging.Mongo.Results.{result_to_document, attempt_result_fields}
use healthassure_messaging.Mongo.Intents.{pending_document, intent_from_document}
use healthassure_messaging.Mongo.Intents.Requests.{
  require_limit, attempt_key, attempt_set, complete_set, same_identity, active_index, claim_attempt,
}
use healthassure_messaging.Mongo.Intents.Keys.{get_plain, get_nested}
use healthassure_messaging.Mongo.Intents.Completed.{completed_by}
use healthassure_messaging.Mongo.{Answer, Collection}
use healthassure_messaging.Mongo.Intents.Repository.{recover_each, recover_stale_dispatching}
use healthassure_messaging.Mongo.Intents.Recovery.{recovery_of, recover_each-recovered}
use healthassure_messaging.Mongo.Intents.Recovered.{Within, recover_stale_dispatching-Within}
use healthassure_messaging.Mongo.Intents.Settled.{intent_from_document-attempt_set}
use healthassure_messaging.Mongo.Intents.Claimed.{intent_from_document-claim_update}
use healthassure_messaging.Examples.Records.{
  pending, stored, pending_read, rejected, dispatched, dispatched-Applied,
}

-- What the completion at the time 12 makes of an attempt.
abbrev finish : DispatchResult → Object → Object
finish r d = attempt_result_fields (λ k. k) r (field "completed_at_epoch" (nat 12) d)

abbrev settled : DispatchResult → Object
settled r = field "state" (Value.str (state_value (terminal_state r.disposition))) (
    field "result" (result_to_document r) (
      field "updated_at_epoch" (nat 12) (
        field "completed_at_epoch" (nat 12) (
          field "attempts" (Value.arr (cons (Value.obj (finish r (claim_attempt 0 9))) nil))
            dispatched))))

has-get : (k : String) (d : Object) → has k d ≡ false → get k d ≡ none
unfolding has
has-get k d h = ground arith

module _ (r : DispatchResult) where
  only_attempt :
      (xs : Array) (d : Object)
      → some (Value.arr (cons (Value.obj (claim_attempt 0 9)) nil)) ≡ some (Value.arr xs)
      → array_at xs 0 ≡ ok (Value.obj d)
      → some (Value.arr (cons (Value.obj (finish r (claim_attempt 0 9))) nil))
        ≡ some (Value.arr (put_at xs 0 (Value.obj (finish r d))))
  unfolding array_at put_at
  only_attempt (cons x nil) d h a =
      let same : claim_attempt 0 9 ≡ d = cc in
      ap (λ e. some (Value.arr (cons (Value.obj (finish r e)) nil))) same
  only_attempt _ d h a = cc

  nested_set :
      (k : String) (v : Value) (d : Object)
      → get k (finish r end) ≡ some v
      → get k (finish r d) ≡ some v
  unfolding attempt_result_fields get
  nested_set k v d h = ground arith

  nested_kept :
      (k : String) (d : Object) → get k (finish r end) ≡ none → get k (finish r d) ≡ get k d
  unfolding attempt_result_fields get
  nested_kept k d h = ground arith

  settled-AppliedAt : AppliedAt (attempt_key 0) 0 (attempt_set r 12 0) dispatched (settled r)
  unfolding complete_set get state_value
  settled-AppliedAt = record {
    sets = λ k v plain h. plain_set k v (sym (get_plain r 12 0 k plain) ∙ h);
    keeps = λ k plain other h. plain_kept k other (sym (get_plain r 12 0 k plain) ∙ has-get k _ h);
    attempt = finish r;
    attempts = λ xs d h a. only_attempt xs d h a;
    attempt_sets = λ k v d h. nested_set k v d (sym (get_nested r 12 0 k) ∙ h);
    attempt_keeps =
        λ k d h. nested_kept k d (sym (get_nested r 12 0 k) ∙ has-get (attempt_key 0 k) _ h);
  }
    where
      plain_set :
          (k : String) (v : Value)
          → get k (operands "$set" (complete_set r 12 end)) ≡ some v
          → get k (settled r) ≡ some v
      plain_set k v h = ground arith

      plain_kept :
          (k : String)
          → (k == "attempts") ≡ false
          → get k (operands "$set" (complete_set r 12 end)) ≡ none
          → get k (settled r) ≡ get k dispatched
      plain_kept k other h = ground (arith, eq_iff k "attempts", eq_iff "attempts" k)

dispatched_read :
    (intent_from_document (Value.obj dispatched)
      ≡ ok (record pending { state = IntentState.dispatching }))
    × (active_index dispatched ≡ ok 0)
unfolding doc_int int_value get pending_document
dispatched_read =
    let r =
      intent_from_document-claim_update 0 9 stored dispatched pending "i-1" 0 dispatched-Applied
        pending_read refl refl in
    (r.0, r.1)

intent_from_document-attempt_set_example :
    intent_from_document (Value.obj (settled rejected)) ≡ ok (completed_by pending rejected)
unfolding same_identity check_dispatch_result check_error require_text require_optional_text
    is_blank is_space
intent_from_document-attempt_set_example =
    intent_from_document-attempt_set rejected 12 0 dispatched (settled rejected)
      (record pending { state = IntentState.dispatching }) (settled-AppliedAt rejected)
      (dispatched_read.0) (dispatched_read.1) refl refl refl

abbrev claimed : MessageIntent
claimed = record pending { state = IntentState.dispatching }

-- A collection that lists the claimed intent, and makes the update that completes it.
abbrev claimed_only : Collection ℕ
claimed_only = record {
  find_one = λ q e. (Answer.answer (some (Value.obj dispatched)), e);
  upsert = λ q d e. (Answer.answer false, e);
  update = λ q u e. (Answer.answer (some (Value.obj (settled (recovery_of claimed)))), e);
  insert_one = λ d e. (Answer.duplicate_key, e);
  find = λ q ks n e. (Answer.answer (Value.obj dispatched ∷ []), e);
}

abbrev clock : ℕ → ℤ × ℕ
clock e = (pos 12, e)

recover_each-recovered_example :
    (recover_each claimed_only clock (Value.obj dispatched ∷ []) 5 ≡ (ok 1, 5))
    × (intent_from_document (Value.obj (settled (recovery_of claimed)))
        ≡ ok (record pending { state = IntentState.unknown; result = some (recovery_of claimed) }))
recover_each-recovered_example =
    recover_each-recovered claimed_only clock claimed dispatched (settled (recovery_of claimed)) 12
      0 5 5 5 5 refl dispatched_read.0 dispatched_read.1 refl refl
      (settled-AppliedAt (recovery_of claimed)) (Value.obj dispatched) dispatched_read.0

recover_stale_dispatching-Within_example :
    Within 3 (recover_stale_dispatching claimed_only clock (pos 9) (pos 3) 5).0
recover_stale_dispatching-Within_example =
    recover_stale_dispatching-Within claimed_only clock (λ q ks n e h. omega (arith, h)) (pos 9) 3 5

-- The recovery within that limit counts the intent.
one_recovered : (recover_stale_dispatching claimed_only clock (pos 9) (pos 3) 5).0 ≡ ok 1
unfolding recover_stale_dispatching require_epoch require_limit
one_recovered = rw (recover_each-recovered_example.0) refl
