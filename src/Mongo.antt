-- ===== src/Mongo.antt =====
-- src/healthassure_messaging/persistence/mongo.py: what its repositories share. The pymongo library is
-- a parameter: a collection is a record of the calls that the package makes, each a function on the
-- state `E` of everything outside, which other processes change too. A document, a query and an update
-- are objects of `Json`; a number with a fraction has no value in the model.
pub mod Documents
pub mod Refusals
pub mod Results
pub mod Equality
pub mod Intents
pub mod Policies
pub mod Sessions
pub mod Templates
pub mod Indexes
pub mod Updates
use healthassure_messaging.Base.{ℕ, String, Bool, Option, List}
use healthassure_messaging.Base.Int.{ℤ}
use healthassure_messaging.Errors.{Error, Result, ok, err}
use healthassure_messaging.Json.{Value, Object}

-- How a call of pymongo ends: with its answer, with DuplicateKeyError, or with another PyMongoError.
pub data Answer (A : Type 0) : Type 0 where
  answer : A → Answer A
  duplicate_key failed : Answer A

-- The calls on one collection. `upsert` is `update_one(scope, {"$setOnInsert": document},
-- upsert=True)`, whose answer is `upserted_id is not None`; `update` is
-- `find_one_and_update(query, update, return_document=AFTER)`; `find` sorts by its keys, ascending,
-- and takes at most so many.
pub record Collection (E : Type 0) : Type 0 where
  pub find_one : Object → E → Answer (Option Value) × E
  pub upsert : Object → Object → E → Answer Bool × E
  pub update : Object → Object → E → Answer (Option Value) × E
  pub insert_one : Object → E → Answer (Unit {0}) × E
  pub find : Object → List String → ℕ → E → Answer (List Value) × E

-- A call of the package: the outside, then a result or an exception.
abbrev pub Action : Type 0 → Type 0 → Type 0
Action E A = E → Result A × E

-- `_mongo_call`: DuplicateKeyError is a PyMongoError.
abbrev pub answered : {A : Type 0} → Answer A → Result A
answered (Answer.answer a) = ok a
answered _ = err Error.mongo_persistence

module _ {E A : Type 0} where
  abbrev pub done : Result A → Action E A
  done r e = (r, e)

  abbrev pub continue_with : {B : Type 0} → Result A → E → (A → Action E B) → Result B × E
  continue_with (ok a) e next = next a e
  continue_with (err x) e next = (err x, e)

  abbrev pub mongo_call : (E → Answer A × E) → Action E A
  mongo_call operation e = let (a, e') = operation e in (answered a, e')

infixl 5 ◌>>=◌ ◌>>◌
abbrev pub ◌>>=◌ : {E A B : Type 0} → Action E A → (A → Action E B) → Action E B
◌>>=◌ m next e = let (r, e') = m e in continue_with r e' next

abbrev pub ◌>>◌ : {E A B : Type 0} → Action E A → Action E B → Action E B
m >> second = m >>= λ _. second
