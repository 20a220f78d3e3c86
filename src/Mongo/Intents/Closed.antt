-- ===== src/Mongo/Intents/Closed.antt =====
-- What the reader of a stored intent in src/healthassure_messaging/persistence/mongo.py refuses.
use mathlib.Core.Path.{subst}
use healthassure_messaging.Base.{String, sym, ◌≡◌, refl, true, Option, none, some, arith, ℕ, suc}
use healthassure_messaging.Errors.{Error, Result, ok, err}
use healthassure_messaging.Errors.Returns.{Returns, Returns-next}
use healthassure_messaging.Contracts.{NormalizedError, check_error}
use healthassure_messaging.Contracts.Checks.{check_error-Checks}
use healthassure_messaging.ServiceContracts.{
  MessageIntent, DispatchResult, check_intent, check_dispatch_result,
}
use healthassure_messaging.ServiceContracts.Checks.{
  check_intent-Checks, check_dispatch_result-Checks,
}
use healthassure_messaging.Json.{Value, Array, Object, nil, cons}
use healthassure_messaging.Mongo.Documents.{record_call, list_value}
use healthassure_messaging.Mongo.Results.{
  build_error, error_from_document, build_result, result_from_document,
}
use healthassure_messaging.Mongo.Refusals.{
  is_refusal, Place, Only, Only-ok, Only-bind, Only-Checks, Only-list_value, refusal, only_rules,
}
use healthassure_messaging.Mongo.Intents.{
  check_disposition, validate_attempt, validate_each, validate_attempts, stored_result,
  build_intent, intent_from_document,
}

Only-check_error : (e : NormalizedError) → Only Place.inside (check_error e)
Only-check_error e = Only-Checks _ (check_error-Checks e)

Only-build_error : (d : Object) → Only Place.inside (build_error d)
unfolding build_error
Only-build_error d = search (only_rules, Only-check_error) depth 40

Only-error_from_document : (p : Place) (v : Option Value) → Only p (error_from_document v)
unfolding error_from_document
Only-error_from_document p none = Only-ok p none
Only-error_from_document p (some Value.null) = Only-ok p none
Only-error_from_document p (some v) = search (only_rules, Only-build_error) depth 20

Only-check_dispatch_result : (r : DispatchResult) → Only Place.inside (check_dispatch_result r)
Only-check_dispatch_result r = Only-Checks _ (check_dispatch_result-Checks r)

Only-build_result : (d : Object) → Only Place.inside (build_result d)
unfolding build_result
Only-build_result d =
    search (only_rules, Only-error_from_document, Only-check_dispatch_result) depth 40

Only-result_from_document : (p : Place) (v : Value) → Only p (result_from_document v)
unfolding result_from_document
Only-result_from_document p v = search (only_rules, Only-build_result) depth 20

Only-stored_result : (p : Place) (v : Option Value) → Only p (stored_result v)
unfolding stored_result
Only-stored_result p none = Only-ok p none
Only-stored_result p (some Value.null) = Only-ok p none
Only-stored_result p (some v) = search (only_rules, Only-result_from_document) depth 20

Only-check_intent : (i : MessageIntent) → Only Place.inside (check_intent i)
Only-check_intent i = Only-Checks _ (check_intent-Checks i)

Only-build_intent : (d : Object) → Only Place.inside (build_intent d)
unfolding build_intent
Only-build_intent d = search (only_rules, Only-stored_result, Only-check_intent) depth 60

Only-check_disposition : (p : Place) (o : Option String) → Only p (check_disposition o)
unfolding check_disposition
Only-check_disposition p none = Only-ok p tt
Only-check_disposition p (some v) = search only_rules depth 20

Only-validate_attempt : (p : Place) (n : ℕ) (v : Value) → Only p (validate_attempt n v)
unfolding validate_attempt
Only-validate_attempt p n v =
    search (only_rules, Only-check_disposition, Only-error_from_document) depth 60

Only-validate_each : (p : Place) (n : ℕ) (xs : Array) → Only p (validate_each n xs)
unfolding validate_each
Only-validate_each p n nil = Only-ok p tt
Only-validate_each p n (cons x xs) =
    Only-bind p _ _ (Only-validate_attempt p n x) (λ _. Only-validate_each p (suc n) xs)

Only-attempts : (p : Place) (v : Option Value) → Only p (list_value Error.mongo_record v)
Only-attempts p v = Only-list_value p v Error.mongo_record (refusal p)

Only-validate_attempts : (p : Place) (d : Object) → Only p (validate_attempts d)
unfolding validate_attempts
Only-validate_attempts p d = search (only_rules, Only-attempts, Only-validate_each) depth 30

pub Only-intent_from_document : (p : Place) (v : Value) → Only p (intent_from_document v)
unfolding intent_from_document
Only-intent_from_document p v =
    search (only_rules, Only-validate_attempts, Only-build_intent) depth 30

-- What the constructor returns it accepts.
checked : (i j : MessageIntent) → check_intent i ≡ ok j → check_intent j ≡ ok j
checked i j h = subst (λ x. check_intent x ≡ ok j) (sym ((check_intent-Checks i).returns j h)) h

checked_intent : (i : MessageIntent) → Returns (λ j. check_intent j ≡ ok j) (check_intent i)
checked_intent i = record { at = λ j h. checked i j h }

recorded :
    (m : Result MessageIntent)
    → Returns (λ i. check_intent i ≡ ok i) m
    → Returns (λ i. check_intent i ≡ ok i) (record_call m)
unfolding record_call
recorded (ok i) r = r
recorded (err e) r = record { at = λ i h. absurd (ground arith) }

built_valid : (d : Object) → Returns (λ i. check_intent i ≡ ok i) (build_intent d)
unfolding build_intent
built_valid d = search (Returns-next, checked_intent) depth 40

read_valid : (v : Value) → Returns (λ i. check_intent i ≡ ok i) (intent_from_document v)
unfolding intent_from_document
read_valid v = search (Returns-next, recorded, built_valid) depth 30

-- An ending of the reader.
pub data Read : Result MessageIntent → Type 0 where
  accepted : {i : MessageIntent} → check_intent i ≡ ok i → Read (ok i)
  refused_record : Read (err Error.mongo_record)

refusal_only : (e : Error) → is_refusal e ≡ true → Read (err e)
refusal_only Error.mongo_record h = refused_record
refusal_only _ h = absurd (cc h)

ends_read :
    (m : Result MessageIntent)
    → Only Place.outside m
    → Returns (λ i. check_intent i ≡ ok i) m
    → Read m
ends_read (ok i) o r = accepted (r.at i refl)
ends_read (err e) o r = refusal_only e (o.raises e refl)

-- Whatever the document, a stored intent is read or refused with MongoRecordError, and one that is read
-- is one that its constructor accepts.
pub intent_from_document-Read : (v : Value) → Read (intent_from_document v)
intent_from_document-Read v =
    ends_read (intent_from_document v) (Only-intent_from_document Place.outside v) (read_valid v)
