-- ===== src/Mongo/Refusals.antt =====
-- What the readers of src/healthassure_messaging/persistence/mongo.py raise: rules for each way to build
-- one.
use mathlib.Core.Path.{subst}
use healthassure_messaging.Base.{
  ℕ, String, ◌≡◌, refl, Bool, true, false, ◌||◌, Option, none, some, arith, if◌then◌else◌,
}
use healthassure_messaging.Base.Int.{pos}
use healthassure_messaging.Errors.{Error, Result, ok, err, ◌>>=◌, raise_if}
use healthassure_messaging.Errors.Returns.{Returns}
use healthassure_messaging.Errors.Checks.{Checks}
use healthassure_messaging.Json.{Value, Array, Object, get}
use healthassure_messaging.Mongo.Documents.{
  refused, is_value_error, record_call, as_document, text_value, doc_text, optional_text_value,
  doc_optional_text, int_value, doc_int, optional_int_value, doc_optional_int, bool_value, doc_bool,
  validate_schema, list_value, enum_of,
}

-- Outside `_record_call` a reader raises MongoRecordError, inside it ValueError and TypeError too.
pub data Place : Type 0 where
  outside inside : Place

abbrev pub is_refusal : Error → Bool
is_refusal Error.mongo_record = true
is_refusal _ = false

abbrev pub allowed : Place → Error → Bool
allowed Place.outside e = is_refusal e
allowed Place.inside e = is_value_error e || is_refusal e

pub record Only {ℓ} {A : Type ℓ} (p : Place) (m : Result A) : Type ℓ where
  pub raises : (e : Error) → m ≡ err e → allowed p e ≡ true

pub Only-ok {ℓ} : {A : Type ℓ} (p : Place) (a : A) → Only p (ok a)
Only-ok p a = record { raises = λ e h. absurd (cc h) }

pub Only-err {ℓ} :
    {A : Type ℓ} (p : Place) (e : Error) → allowed p e ≡ true → Only {A = A} p (err e)
Only-err p e a = record { raises = λ x h. subst (λ y. allowed p y ≡ true) (cc h) a }

pub refusal : (p : Place) → allowed p Error.mongo_record ≡ true
refusal Place.outside = refl
refusal Place.inside = refl

pub Only-refused {ℓ} : {A : Type ℓ} (p : Place) → Only {A = A} p refused
Only-refused p = Only-err p Error.mongo_record (refusal p)

pub Only-bind {ℓ κ} :
    {A : Type ℓ} {B : Type κ} (p : Place) (m : Result A) (f : A → Result B)
    → Only p m
    → ((a : A) → Only p (f a))
    → Only p (m >>= f)
Only-bind p (ok a) f c next = next a
Only-bind p (err e) f c next = Only-err p e (c.raises e refl)

pub Only-if {ℓ} :
    {A : Type ℓ} (p : Place) (b : Bool) (m n : Result A)
    → Only p m
    → Only p n
    → Only p (if b then m else n)
Only-if p true m n x y = x
Only-if p false m n x y = y

pub Only-raise_if : (p : Place) (b : Bool) → Only p (raise_if b Error.mongo_record)
Only-raise_if p true = Only-refused p
Only-raise_if p false = Only-ok p tt

pub Only-record_call {ℓ} :
    {A : Type ℓ} (m : Result A) → Only Place.inside m → Only Place.outside (record_call m)
unfolding record_call
Only-record_call (ok a) c = Only-ok Place.outside a
Only-record_call (err e) c = record { raises = λ x h. ground (arith, c.raises e refl) }

-- Inside and outside of `_record_call`.
pub Only-record_call_any {ℓ} :
    {A : Type ℓ} (p : Place) (m : Result A) → Only Place.inside m → Only p (record_call m)
Only-record_call_any Place.outside m c = Only-record_call m c
Only-record_call_any Place.inside m c = record {
  raises = λ e h. ground (arith, (Only-record_call m c).raises e h);
}

-- What a reader returns, it returns through `_record_call`.
pub record_call-Returns :
    {A : Type 0} {P : A → Type 0} (m : Result A) → Returns P m → Returns P (record_call m)
unfolding record_call
record_call-Returns (ok a) r = r
record_call-Returns (err e) r = record { at = λ a h. r.at a (ground arith) }

pub list_stored :
    (v : Option Value) (e : Error) (xs : Array) → list_value e v ≡ ok xs → v ≡ some (Value.arr xs)
unfolding list_value
list_stored v e xs h = ground arith

-- A constructor.
pub Only-Checks {ℓ} : {A : Type ℓ} {a : A} (m : Result A) → Checks a m → Only Place.inside m
Only-Checks m c = record { raises = λ e h. ground (arith, c.raises e h) }

pub Only-enum_of {ℓ} : {A : Type ℓ} (o : Option A) → Only Place.inside (enum_of o)
unfolding enum_of
Only-enum_of none = Only-err Place.inside Error.value_error refl
Only-enum_of (some a) = Only-ok Place.inside a

pub Only-as_document : (p : Place) (v : Value) → Only p (as_document v)
unfolding as_document
Only-as_document p (Value.obj d) = Only-ok p d
Only-as_document p _ = Only-refused p

pub Only-doc_text : (p : Place) (d : Object) (k : String) → Only p (doc_text d k)
unfolding doc_text text_value
Only-doc_text p d k = of_value (get k d)
  where
    of_value : (v : Option Value) → Only p (text_value v)
    of_value (some (Value.str s)) = Only-if p _ _ _ (Only-refused p) (Only-ok p s)
    of_value _ = Only-refused p

pub Only-doc_optional_text : (p : Place) (d : Object) (k : String) → Only p (doc_optional_text d k)
unfolding doc_optional_text optional_text_value
Only-doc_optional_text p d k = of_value (get k d)
  where
    of_value : (v : Option Value) → Only p (optional_text_value v)
    of_value none = Only-ok p none
    of_value (some Value.null) = Only-ok p none
    of_value (some (Value.str s)) = Only-if p _ _ _ (Only-refused p) (Only-ok p (some s))
    of_value _ = Only-refused p

pub Only-doc_int : (p : Place) (d : Object) (k : String) (n : ℕ) → Only p (doc_int d k n)
unfolding doc_int int_value
Only-doc_int p d k n = of_value (get k d)
  where
    of_value : (v : Option Value) → Only p (int_value v n)
    of_value (some (Value.num (pos m))) = Only-if p _ _ _ (Only-ok p m) (Only-refused p)
    of_value _ = Only-refused p

pub Only-doc_optional_int : (p : Place) (d : Object) (k : String) → Only p (doc_optional_int d k)
unfolding doc_optional_int optional_int_value
Only-doc_optional_int p d k = of_value (get k d)
  where
    of_value : (v : Option Value) → Only p (optional_int_value v)
    of_value none = Only-ok p none
    of_value (some Value.null) = Only-ok p none
    of_value (some (Value.num (pos m))) = Only-ok p (some m)
    of_value _ = Only-refused p

pub Only-doc_bool : (p : Place) (d : Object) (k : String) → Only p (doc_bool d k)
unfolding doc_bool bool_value
Only-doc_bool p d k = of_value (get k d)
  where
    of_value : (v : Option Value) → Only p (bool_value v)
    of_value (some (Value.bool b)) = Only-ok p b
    of_value _ = Only-refused p

pub Only-validate_schema : (p : Place) (d : Object) → Only p (validate_schema d)
unfolding validate_schema
Only-validate_schema p d = Only-if p _ _ _ (Only-ok p tt) (Only-refused p)

pub Only-list_value :
    (p : Place) (v : Option Value) (e : Error) → allowed p e ≡ true → Only p (list_value e v)
unfolding list_value
Only-list_value p (some (Value.arr xs)) e a = Only-ok p xs
Only-list_value p _ e a = Only-err p e a

pub ruleset only_rules = (
  Only-ok, Only-refused, Only-bind, Only-if, Only-raise_if, Only-record_call_any, Only-enum_of,
  Only-as_document, Only-doc_text, Only-doc_optional_text, Only-doc_int, Only-doc_optional_int,
  Only-doc_bool, Only-validate_schema,
)
