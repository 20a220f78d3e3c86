-- ===== src/Mongo/Intents/Settled.antt =====
-- The record after the completion of a claimed intent in src/healthassure_messaging/persistence/mongo.py.
use mathlib.Core.Path.{subst}
use healthassure_messaging.Base.{
  ℕ, zero, suc, ◌+◌, ◌-◌, String, ◌≡◌, refl, sym, ap, ◌∙◌, true, false, not, Option, none, some,
  nat_eq, arith, ◌==◌,
}
use healthassure_messaging.Base.Append.{is_dotted}
use healthassure_messaging.Enums.{disposition_value, terminal_state}
use healthassure_messaging.Enums.RoundTrip.{disposition_visible, disposition_round_trip}
use healthassure_messaging.Errors.{Error, ok}
use healthassure_messaging.Errors.Returns.{Returns, Returns-ok, Returns-run, Returns-raise_if}
use healthassure_messaging.ServiceContracts.{MessageIntent, DispatchResult, check_dispatch_result}
use healthassure_messaging.Json.{Value, Array, Object, nil, cons, end, field, get}
use healthassure_messaging.Mongo.Documents.{
  array_at, as_document, doc_text, text_value, doc_int, doc_optional_text, doc_optional_int,
  optional_int_value, list_value, array_length, nat, enum_of, record_call, optional_text_field,
}
use healthassure_messaging.Mongo.Results.{attempt_result_fields, error_to_document}
use healthassure_messaging.Mongo.Results.RoundTrip.{
  ErrorValid, error_round_trip, result_texts, optional_text_read, optional-Given,
}
use healthassure_messaging.Mongo.Intents.{
  check_disposition, validate_attempt, validate_each, intent_from_document,
}
use healthassure_messaging.Mongo.Intents.Requests.{
  attempt_key, attempt_set, complete_set, active_index, same_identity, is_null,
}
use healthassure_messaging.Mongo.Intents.Keys.{get_plain, get_nested, get-has}
use healthassure_messaging.Mongo.Intents.Attempts.{Attempts, Attempts-of, valid-Attempts, both}
use healthassure_messaging.Mongo.Intents.Completed.{CompletedTo, completed_read}
use healthassure_messaging.Mongo.Refusals.{list_stored}
use healthassure_messaging.Mongo.Updates.{AppliedAt, operands, put_at}

length-put_at : (raw : Array) (i : ℕ) (v : Value) → array_length (put_at raw i v) ≡ array_length raw
unfolding array_length put_at
length-put_at nil i v = refl
length-put_at (cons x raw) i v = ground (arith, length-put_at raw (i - 1) v)

not_first : (i : ℕ) → nat_eq (suc i) 0 ≡ false
not_first i = ground arith

less_one : (i : ℕ) → suc i - 1 ≡ i
less_one i = omega arith

later :
    (i : ℕ) (y : Value) (raw : Array) (x : Value)
    → array_at (cons y raw) (suc i) ≡ ok x
    → array_at raw i ≡ ok x
unfolding array_at
later i y raw x a = rw (not_first i, less_one i) at a

each_put :
    (k i : ℕ) (raw : Array) (x v : Value)
    → validate_each k raw ≡ ok tt
    → array_at raw i ≡ ok x
    → (validate_attempt (k + i) x ≡ ok tt → validate_attempt (k + i) v ≡ ok tt)
    → validate_each k (put_at raw i v) ≡ ok tt
unfolding validate_each array_at put_at
each_put k i nil x v h a keep = absurd (cc a)
each_put k zero (cons y raw) x v h a keep =
    let (first, rest) = both (validate_attempt k y) (validate_each (suc k) raw) h in
    let at : k + 0 ≡ k = omega arith in
    let same : y ≡ x = cc a in
    let new : validate_attempt k v ≡ ok tt =
      subst (λ j. validate_attempt j v ≡ ok tt) at (keep (rw (at, sym same) first)) in
    rw (new) rest
each_put k (suc i) (cons y raw) x v h a keep =
    let (first, rest) = both (validate_attempt k y) (validate_each (suc k) raw) h in
    let at : k + suc i ≡ suc k + i = omega arith in
    rw (not_first i, less_one i, first)
      (each_put (suc k) i raw x v rest (later i y raw x a) (λ p. rw (sym at) (keep (rw at p))))

-- The tests on an attempt that a completion leaves as they are.
record Started (m : ℕ) (d : Object) : Type 0 where
  number : ℕ
  number_read : doc_int d "attempt_number" 1 ≡ ok number
  number_same : not (nat_eq number m) ≡ false
  started : ℕ
  started_read : doc_int d "started_at_epoch" 0 ≡ ok started

attempt-Started :
    (m : ℕ) (d : Object) → Returns (λ u. Started m d) (validate_attempt m (Value.obj d))
unfolding validate_attempt as_document
attempt-Started m d = Returns-run (doc_int d "attempt_number" 1) (λ n h.
    Returns-raise_if (not (nat_eq n m)) Error.mongo_record (λ same.
      Returns-run (doc_int d "started_at_epoch" 0) (λ t g. record {
        at = λ u p. record {
          number = n;
          number_read = h;
          number_same = same;
          started = t;
          started_read = g;
        };
      })))

document_value : (x : Value) (d : Object) → as_document x ≡ ok d → x ≡ Value.obj d
unfolding as_document
document_value (Value.obj e) d h = cc h
document_value _ d h = absurd (cc h)

-- The attempt in progress that a completion finds.
record InProgress (d : Object) (index : ℕ) : Type 0 where
  raw : Array
  attempt : Object
  stored : get "attempts" d ≡ some (Value.arr raw)
  found : array_at raw index ≡ ok (Value.obj attempt)

active_index-InProgress : (d : Object) → Returns (InProgress d) (active_index d)
unfolding active_index
active_index-InProgress d = Returns-run (doc_int d "attempt_count" 1) (λ n counted.
    Returns-run (list_value Error.mongo_record (get "attempts" d)) (λ raw stored.
      Returns-raise_if (not (nat_eq (array_length raw) n)) Error.mongo_record (λ whole.
        Returns-run (array_at raw (n - 1)) (λ x found. Returns-run (as_document x) (λ attempt p.
          Returns-raise_if (not (is_null (get "completed_at_epoch" attempt))) Error.mongo_record
            (λ open_attempt. Returns-ok (record {
              raw = raw;
              attempt = attempt;
              stored = list_stored (get "attempts" d) Error.mongo_record raw stored;
              found = found ∙ ap ok (document_value x attempt p);
            })))))))

same_array :
    (v : Option Value) (xs ys : Array) → v ≡ some (Value.arr xs) → v ≡ some (Value.arr ys) → xs ≡ ys
same_array v xs ys h k = cc (h, k)

module _ (r : DispatchResult) (now index : ℕ) (before after : Object)
    (a : AppliedAt (attempt_key index) index (attempt_set r now index) before after) where
  -- The attempt after the completion.
  attempt_completed :
      (m : ℕ) (d : Object)
      → check_dispatch_result r ≡ ok r
      → ErrorValid r.error
      → validate_attempt m (Value.obj d) ≡ ok tt
      → validate_attempt m (Value.obj (a.attempt d)) ≡ ok tt
  unfolding validate_attempt as_document doc_int doc_text doc_optional_text doc_optional_int
      text_value optional_int_value check_disposition enum_of record_call attempt_result_fields get
  attempt_completed m d v e h =
      let p = (attempt-Started m d).at tt h in
      let texts = result_texts r v in
      let at =
        λ (k : String) (w : Value)
            (q : get k (attempt_result_fields (λ j. j) r (field "completed_at_epoch" (nat now) end))
              ≡ some w).
          a.attempt_sets k w d (get_nested r now index k ∙ q) in
      let kept =
        λ (k : String)
            (q : get k (attempt_result_fields (λ j. j) r (field "completed_at_epoch" (nat now) end))
              ≡ none).
          a.attempt_keeps k d (get-has _ _ (get_nested r now index k ∙ q)) in
      rw (
        kept "attempt_number" refl,
        p.number_read,
        p.number_same,
        kept "started_at_epoch" refl,
        p.started_read,
        at "completed_at_epoch" (nat now) refl,
        at "state" (Value.str (disposition_value r.disposition)) refl,
        disposition_visible r.disposition,
        at "disposition" (Value.str (disposition_value r.disposition)) refl,
        optional_text_read (some (disposition_value r.disposition))
            (disposition_visible r.disposition),
        disposition_round_trip r.disposition,
        at "provider_message_id" (optional_text_field r.provider_message_id) refl,
        optional_text_read r.provider_message_id (optional-Given r.provider_message_id texts.3),
        at "provider_status" (optional_text_field r.provider_status) refl,
        optional_text_read r.provider_status (optional-Given r.provider_status texts.4),
        at "error" (error_to_document r.error) refl,
        error_round_trip r.error e,
      )

  plain_set :
      (k : String) (v : Value)
      → is_dotted k ≡ false
      → get k (operands "$set" (complete_set r now end)) ≡ some v
      → get k after ≡ some v
  plain_set k v plain h = a.sets k v plain (get_plain r now index k plain ∙ h)

  plain_kept :
      (k : String)
      → is_dotted k ≡ false
      → (k == "attempts") ≡ false
      → get k (operands "$set" (complete_set r now end)) ≡ none
      → get k after ≡ get k before
  plain_kept k plain other h =
      a.keeps k plain other (get-has _ _ (get_plain r now index k plain ∙ h))

  Attempts-after :
      (n : ℕ) (d : Object)
      → check_dispatch_result r ≡ ok r
      → ErrorValid r.error
      → (p : Attempts n before) → array_at p.raw index ≡ ok (Value.obj d)
      → Attempts n after
  unfolding complete_set get
  Attempts-after n d v e p found = record {
    raw = put_at p.raw index (Value.obj (a.attempt d));
    stored = a.attempts p.raw d p.stored found;
    counted = plain_kept "attempt_count" refl refl refl ∙ p.counted;
    length_raw = length-put_at p.raw index _ ∙ p.length_raw;
    valid =
        each_put 1 index p.raw (Value.obj d) (Value.obj (a.attempt d)) p.valid found
          (attempt_completed (1 + index) d v e);
  }

  claimed-CompletedTo :
      check_dispatch_result r ≡ ok r
      → ErrorValid r.error
      → active_index before ≡ ok index
      → CompletedTo r before after
  unfolding complete_set get
  claimed-CompletedTo v e active = record {
    kept = record {
      intent_id = plain_kept "intent_id" refl refl refl;
      source_flow = plain_kept "source_flow" refl refl refl;
      idempotency_key = plain_kept "idempotency_key" refl refl refl;
      actor_id = plain_kept "actor_id" refl refl refl;
      provider_key = plain_kept "provider_key" refl refl refl;
      correlation_id = plain_kept "correlation_id" refl refl refl;
      request_fingerprint = plain_kept "request_fingerprint" refl refl refl;
      serialized_request = plain_kept "serialized_request" refl refl refl;
      schema = plain_kept "record_schema_version" refl refl refl;
    };
    state = plain_set "state" _ refl refl;
    result = plain_set "result" _ refl refl;
    attempts = λ h.
        let (n, p) = (Attempts-of before).at tt h in
        let q = (active_index-InProgress before).at index active in
        let found : array_at p.raw index ≡ ok (Value.obj q.attempt) =
          rw (same_array (get "attempts" before) p.raw q.raw p.stored q.stored) (q.found) in
        valid-Attempts after n (Attempts-after n q.attempt v e p found);
  }

-- The update that completes an intent with an attempt in progress, with a result of its identity which
-- is one that its constructor accepts, turns the record into a readable one of the same intent with
-- that result, in the terminal state of its disposition.
pub intent_from_document-attempt_set :
    (r : DispatchResult) (now index : ℕ) (before after : Object) (i : MessageIntent)
    → AppliedAt (attempt_key index) index (attempt_set r now index) before after
    → intent_from_document (Value.obj before) ≡ ok i
    → active_index before ≡ ok index
    → same_identity i.intent_id i r ≡ true
    → check_dispatch_result r ≡ ok r
    → ErrorValid r.error
    → intent_from_document (Value.obj after)
      ≡ ok (record i { state = terminal_state r.disposition; result = some r })
intent_from_document-attempt_set r now index before after i a h active same v e =
    completed_read r before after i (claimed-CompletedTo r now index before after a v e active) h
      same v e
