-- ===== src/Mongo/Updates.antt =====
-- What src/healthassure_messaging/persistence/mongo.py relies on in an update of a document: the
-- documented operators `$set`, `$push` and `$inc`, for keys without a dot (`Applied`), and `$set` with
-- keys of one attempt (`AppliedAt`).
use healthassure_messaging.Base.{
  nat_eq, ◌==◌, ◌-◌, if◌then◌else◌, ℕ, ◌+◌, String, ◌≡◌, Bool, false, ◌||◌, Option, some,
}
use healthassure_messaging.Base.Int.{pos}
use healthassure_messaging.Base.Append.{is_dotted}
use healthassure_messaging.Errors.{ok}
use healthassure_messaging.Mongo.Documents.{array_at}
use healthassure_messaging.Json.{Value, Array, Object, nil, cons, end, get, has}

abbrev pub snoc : Array → Value → Array
snoc nil v = cons v nil
snoc (cons x xs) v = cons x (snoc xs v)

-- What an update says under one operator.
abbrev pub operands_of : Option Value → Object
operands_of (some (Value.obj d)) = d
operands_of _ = end

abbrev pub operands : String → Object → Object
operands operator update = operands_of (get operator update)

abbrev pub touches : Object → String → Bool
touches update k =
    has k (operands "$set" update)
    || has k (operands "$push" update)
    || has k (operands "$inc" update)

-- `after` is what the update makes of `before`.
pub record Applied (update before after : Object) : Type 0 where
  pub sets :
      (k : String) (v : Value) → get k (operands "$set" update) ≡ some v → get k after ≡ some v
  pub pushes :
      (k : String) (v : Value) (xs : Array)
      → get k (operands "$push" update) ≡ some v
      → get k before ≡ some (Value.arr xs)
      → get k after ≡ some (Value.arr (snoc xs v))
  pub increments :
      (k : String) (m n : ℕ)
      → get k (operands "$inc" update) ≡ some (Value.num (pos n))
      → get k before ≡ some (Value.num (pos m))
      → get k after ≡ some (Value.num (pos (m + n)))
  pub keeps : (k : String) → touches update k ≡ false → get k after ≡ get k before

-- A list with another value at an index.
unfoldable pub put_at : Array → ℕ → Value → Array
put_at nil index v = nil
put_at (cons x xs) index v =
    let rest = put_at xs (index - 1) v in if nat_eq index 0 then cons v xs else cons x rest

-- `$set` with keys of an attempt: `after` is what the update makes of `before`, and `attempt` what it
-- makes of the attempt at the index, whose keys `key` names.
pub record AppliedAt (key : String → String) (index : ℕ) (update before after : Object)
    : Type 0 where
  pub sets :
      (k : String) (v : Value)
      → is_dotted k ≡ false
      → get k (operands "$set" update) ≡ some v
      → get k after ≡ some v
  pub keeps :
      (k : String)
      → is_dotted k ≡ false
      → (k == "attempts") ≡ false
      → has k (operands "$set" update) ≡ false
      → get k after ≡ get k before
  pub attempt : Object → Object
  pub attempts :
      (xs : Array) (d : Object)
      → get "attempts" before ≡ some (Value.arr xs)
      → array_at xs index ≡ ok (Value.obj d)
      → get "attempts" after ≡ some (Value.arr (put_at xs index (Value.obj (attempt d))))
  pub attempt_sets :
      (k : String) (v : Value) (d : Object)
      → get (key k) (operands "$set" update) ≡ some v
      → get k (attempt d) ≡ some v
  pub attempt_keeps :
      (k : String) (d : Object)
      → has (key k) (operands "$set" update) ≡ false
      → get k (attempt d) ≡ get k d
