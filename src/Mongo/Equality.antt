-- ===== src/Mongo/Equality.antt =====
-- `==` of Python on the values of documents. A number with a fraction has no value in the model, and
-- counts as unequal to every value.
use healthassure_messaging.Base.{
  ℕ, suc, Bool, true, false, ◌&&◌, none, some, List, nat_eq, ◌==◌, any, if◌then◌else◌,
}
use healthassure_messaging.Base.Int.{ℤ, pos, int_eq}
use healthassure_messaging.Json.{Value, Array, Object, nil, cons, end, field, get}

abbrev pub bool_number : Bool → ℤ
bool_number b = if b then pos 1 else pos 0

unfoldable pub object_length : Object → ℕ
object_length end = 0
object_length (field k v d) = suc (object_length d)

-- The fields of a dict stand in any order.
unfoldable mutual
  pub same : Value → Value → Bool
  same (Value.str s) (Value.str t) = s == t
  same (Value.num m) (Value.num n) = int_eq m n
  same (Value.num m) (Value.bool b) = int_eq m (bool_number b)
  same (Value.bool a) (Value.num n) = int_eq (bool_number a) n
  same (Value.bool a) (Value.bool b) = int_eq (bool_number a) (bool_number b)
  same Value.null Value.null = true
  same (Value.arr xs) (Value.arr ys) = same_items xs ys
  same (Value.obj d) (Value.obj e) = nat_eq (object_length d) (object_length e) && within d e
  same _ _ = false

  pub same_items : Array → Array → Bool
  same_items nil nil = true
  same_items (cons x xs) (cons y ys) = same x y && same_items xs ys
  same_items _ _ = false

  pub within : Object → Object → Bool
  within end e = true
  within (field k v d) e = elim (get k e) [ none ↦ false | some w ↦ same v w && within d e ]

-- `event in events`.
unfoldable pub holds_event : Object → List Object → Bool
holds_event event events = any (λ e. same (Value.obj event) (Value.obj e)) events
