-- ===== src/Mongo/Intents/Attempts.antt =====
-- The attempts of a stored intent of src/healthassure_messaging/persistence/mongo.py.
use mathlib.Core.Path.{subst}
use healthassure_messaging.Base.{
  ℕ, suc, ◌+◌, ◌-◌, String, ◌≡◌, refl, sym, ◌∙◌, true, not, some, leb, nat_eq, arith,
}
use healthassure_messaging.Base.Text.{is_blank, is_space}
use healthassure_messaging.Enums.{state_value}
use healthassure_messaging.Errors.{Error, Result, ok, err, ◌>>◌}
use healthassure_messaging.Errors.Returns.{Returns, Returns-run, Returns-raise_if}
use healthassure_messaging.Json.{Value, Array, Object, nil, cons, get}
use healthassure_messaging.Mongo.Documents.{
  array_at, as_document, doc_text, text_value, doc_int, int_value, list_value, array_length, nat,
  doc_optional_text, doc_optional_int, optional_text_value, optional_int_value,
}
use healthassure_messaging.Mongo.Refusals.{list_stored}
use healthassure_messaging.Mongo.Intents.{
  check_disposition, validate_attempt, validate_each, validate_attempts,
}
use healthassure_messaging.Mongo.Intents.Requests.{claim_attempt}
use healthassure_messaging.Mongo.Results.{error_from_document}
use healthassure_messaging.Mongo.Updates.{snoc}

pub one_le : (n : ℕ) → leb 1 (n + 1) ≡ true
one_le n = ground arith

pub zero_le : (n : ℕ) → leb 0 n ≡ true
zero_le n = ground arith

pub same_number : (n : ℕ) → nat_eq n n ≡ true
same_number n = ground arith

pub number_inj : (m n : ℕ) → some (nat m) ≡ some (nat n) → m ≡ n
number_inj m n h = cc h

-- The new attempt, and the attempts with it at their end.
pub attempt_valid : (n t : ℕ) → validate_attempt (n + 1) (Value.obj (claim_attempt n t)) ≡ ok tt
unfolding validate_attempt claim_attempt as_document doc_int int_value get state_value is_blank
    is_space doc_text text_value doc_optional_text optional_text_value doc_optional_int
    optional_int_value check_disposition error_from_document
attempt_valid n t = rw (one_le n, zero_le t, same_number (n + 1))

pub both : (m k : Result (Unit {0})) → (m >> k) ≡ ok tt → (m ≡ ok tt) × (k ≡ ok tt)
both (ok u) k h = (refl, h)
both (err e) k h = cc

pub each_valid :
    (n t k : ℕ) (raw : Array)
    → validate_each k raw ≡ ok tt
    → k + array_length raw ≡ n + 1
    → validate_each k (snoc raw (Value.obj (claim_attempt n t))) ≡ ok tt
unfolding validate_each array_length
each_valid n t k nil h e = let q : k ≡ n + 1 = omega arith in rw (q, attempt_valid n t)
each_valid n t k (cons x raw) h e =
    let (first, rest) = both (validate_attempt k x) (validate_each (suc k) raw) h in
    rw (first, each_valid n t (suc k) raw rest (omega arith))

pub length-snoc : (raw : Array) (v : Value) → array_length (snoc raw v) ≡ array_length raw + 1
unfolding array_length
length-snoc nil v = refl
length-snoc (cons x raw) v = omega (arith, length-snoc raw v)

pub array_at-snoc :
    (raw : Array) (v : Value) (i : ℕ) → array_length raw ≡ i → array_at (snoc raw v) i ≡ ok v
unfolding array_length array_at
array_at-snoc nil v i h = ground arith
array_at-snoc (cons x raw) v i h = ground (arith, array_at-snoc raw v (i - 1))

pub int_stored : (d : Object) (k : String) (n : ℕ) → doc_int d k 0 ≡ ok n → get k d ≡ some (nat n)
unfolding doc_int int_value
int_stored d k n h = ground arith

pub add_sub : (n : ℕ) → n + 1 - 1 ≡ n
add_sub n = omega arith

-- The attempts of a record that can be read.
pub record Attempts (n : ℕ) (d : Object) : Type 0 where
  pub raw : Array
  pub stored : get "attempts" d ≡ some (Value.arr raw)
  pub counted : get "attempt_count" d ≡ some (nat n)
  pub length_raw : array_length raw ≡ n
  pub valid : validate_each 1 raw ≡ ok tt

pub Attempts-of : (d : Object) → Returns (λ u. (n : ℕ) × Attempts n d) (validate_attempts d)
unfolding validate_attempts
Attempts-of d = Returns-run (list_value Error.mongo_record (get "attempts" d)) (λ raw stored.
    Returns-run (doc_int d "attempt_count" 0) (λ n counted.
      Returns-raise_if (not (nat_eq (array_length raw) n)) Error.mongo_record (λ same. record {
        at = λ u valid. (
          n,
          record {
            raw = raw;
            stored = list_stored _ Error.mongo_record raw stored;
            counted = int_stored d "attempt_count" n counted;
            length_raw = ground (arith, same);
            valid = valid;
          },
        );
      })))

pub valid-Attempts : (d : Object) (n : ℕ) → Attempts n d → validate_attempts d ≡ ok tt
unfolding validate_attempts list_value doc_int int_value
valid-Attempts d n p = rw (p.stored, p.counted, zero_le n, p.length_raw, same_number n) (p.valid)

pub same_count :
    (d : Object) (n m : ℕ) → Attempts m d → doc_int d "attempt_count" 0 ≡ ok n → Attempts n d
same_count d n m p h =
    subst (λ k. Attempts k d) (number_inj m n (sym p.counted ∙ int_stored d "attempt_count" n h)) p
