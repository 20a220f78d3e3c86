-- ===== src/Json.antt =====
-- JSON documents as `json.loads` builds them, and the dict operations that the package uses on
-- them. The text format is the standard library's: `JsonCodec` is a parameter of the model.
use healthassure_messaging.Base.{
  String, Bool, true, false, ◌&&◌, Option, none, some, List, [], ◌∷◌, ◌==◌, if◌then◌else◌, elem,
  all,
}
use healthassure_messaging.Base.Int.{ℤ}
use healthassure_messaging.Errors.{Error, Result, ok, err}

-- `real` is a number with a fraction or an exponent, `constant` is NaN or an infinity.
mutual
  -- An array, and an object: the pairs of a key and a value in the order of the text.
  pub data Array : Type 0 where
    nil : Array
    cons : Value → Array → Array

  pub data Object : Type 0 where
    end : Object
    field : (key : String) → Value → Object → Object

  pub data Value : Type 0 where
    str : String → Value
    num : ℤ → Value
    obj : Object → Value
    arr : Array → Value
    bool : Bool → Value
    null real constant : Value

-- How `json.loads` ends: with a document, whose objects have their pairs as they stand in the text; with
-- JSONDecodeError, where the text is not JSON; or with another exception.
pub data Loaded : Type 0 where
  document : Value → Loaded
  malformed : Loaded
  raised : Error → Loaded

-- The two functions of the `json` module.
pub record JsonCodec : Type 0 where
  pub dumps : Value → String
  pub loads : String → Loaded

-- `d.get(key)`.
unfoldable pub get : String → Object → Option Value
get k end = none
get k (field j v d) = if j == k then some v else get k d

-- `d[key]`.
unfoldable pub item : String → Object → Result Value
unfolding get
item k d = elim (get k d) [ none ↦ err Error.key_error | some v ↦ ok v ]

-- `key in d`.
unfoldable pub has : String → Object → Bool
unfolding get
has k d = elim (get k d) [ none ↦ false | some v ↦ true ]

unfoldable pub keys : Object → List String
keys end = []
keys (field k v d) = k ∷ keys d

-- `set(d) == expected`.
unfoldable pub exact_keys : Object → List String → Bool
unfolding has keys
exact_keys d expected = all (λ k. has k d) expected && all (λ k. elem k expected) (keys d)
