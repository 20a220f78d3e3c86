-- ===== src/Mongo/Documents.antt =====
-- The readers of single fields in src/healthassure_messaging/persistence/mongo.py.
use healthassure_messaging.Base.{
  ◌-◌, nat_eq, ℕ, suc, String, Bool, true, false, Option, none, some, leb, if◌then◌else◌,
}
use healthassure_messaging.Base.Int.{ℤ, pos, int_eq}
use healthassure_messaging.Base.Text.{is_blank}
use healthassure_messaging.Errors.{Error, Result, ok, err}
use healthassure_messaging.Json.{Value, Array, Object, nil, cons, get}

-- `_require_epoch` and `_require_revision`, on an integer.
unfoldable pub require_epoch : ℤ → Result ℕ
require_epoch (pos n) = ok n
require_epoch _ = err Error.value_error

unfoldable pub require_revision : ℤ → Result ℕ
require_revision (pos n) = if leb 1 n then ok n else err Error.value_error
require_revision _ = err Error.value_error

abbrev pub refused {ℓ} : {A : Type ℓ} → Result A
refused = err Error.mongo_record

-- The classes of `except (TypeError, ValueError)`.
abbrev pub is_value_error : Error → Bool
is_value_error Error.value_error = true
is_value_error Error.type_error = true
is_value_error Error.phone_number = true
is_value_error Error.provider_registration = true
is_value_error Error.duplicate_provider = true
is_value_error Error.template_parameter = true
is_value_error Error.missing_template_parameter = true
is_value_error Error.extra_template_parameter = true
is_value_error Error.duplicate_template_alias = true
is_value_error Error.idempotency_conflict = true
is_value_error Error.request_serialization = true
is_value_error Error.unsupported_schema_version = true
is_value_error Error.sensitive_request_unavailable = true
is_value_error Error.webhook_parse = true
is_value_error _ = false

-- `_record_call`.
unfoldable pub record_call {ℓ} : {A : Type ℓ} → Result A → Result A
record_call (ok a) = ok a
record_call (err e) = if is_value_error e then refused else err e

-- `_as_document`; the keys of a document are texts.
unfoldable pub as_document : Value → Result Object
as_document (Value.obj d) = ok d
as_document _ = refused

-- A value that must be a text, `None` being the value of a missing key.
unfoldable pub text_value : Option Value → Result String
text_value (some (Value.str s)) = if is_blank s then refused else ok s
text_value _ = refused

unfoldable pub doc_text : Object → String → Result String
unfolding text_value
doc_text document key = text_value (get key document)

unfoldable pub optional_text_value : Option Value → Result (Option String)
optional_text_value none = ok none
optional_text_value (some Value.null) = ok none
optional_text_value (some (Value.str s)) = if is_blank s then refused else ok (some s)
optional_text_value _ = refused

unfoldable pub doc_optional_text : Object → String → Result (Option String)
unfolding optional_text_value
doc_optional_text document key = optional_text_value (get key document)

unfoldable pub int_value : Option Value → ℕ → Result ℕ
int_value (some (Value.num (pos n))) minimum = if leb minimum n then ok n else refused
int_value _ minimum = refused

unfoldable pub doc_int : Object → String → ℕ → Result ℕ
unfolding int_value
doc_int document key minimum = int_value (get key document) minimum

unfoldable pub optional_int_value : Option Value → Result (Option ℕ)
optional_int_value none = ok none
optional_int_value (some Value.null) = ok none
optional_int_value (some (Value.num (pos n))) = ok (some n)
optional_int_value _ = refused

unfoldable pub doc_optional_int : Object → String → Result (Option ℕ)
unfolding optional_int_value
doc_optional_int document key = optional_int_value (get key document)

unfoldable pub bool_value : Option Value → Result Bool
bool_value (some (Value.bool b)) = ok b
bool_value _ = refused

unfoldable pub doc_bool : Object → String → Result Bool
unfolding bool_value
doc_bool document key = bool_value (get key document)

-- `value == 1`, which holds of `True` too.
unfoldable pub equals_one : Option Value → Bool
equals_one (some (Value.num n)) = int_eq n (pos 1)
equals_one (some (Value.bool b)) = b
equals_one _ = false

abbrev pub mongo_record_schema_version : ℕ
mongo_record_schema_version = 1

unfoldable pub validate_schema : Object → Result (Unit {0})
unfolding equals_one
validate_schema document =
    if equals_one (get "record_schema_version" document) then ok tt else refused

-- What a list field holds; another value is refused by `e`.
unfoldable pub list_value : Error → Option Value → Result Array
list_value e (some (Value.arr xs)) = ok xs
list_value e _ = err e

-- `Enum(value)`.
unfoldable pub enum_of {ℓ} : {A : Type ℓ} → Option A → Result A
enum_of none = err Error.value_error
enum_of (some a) = ok a

unfoldable pub array_length : Array → ℕ
array_length nil = 0
array_length (cons x xs) = suc (array_length xs)

-- The values that the package writes.
abbrev pub nat : ℕ → Value
nat n = Value.num (pos n)

abbrev pub optional_text_field : Option String → Value
optional_text_field none = Value.null
optional_text_field (some s) = Value.str s

abbrev pub optional_int_field : Option ℕ → Value
optional_int_field none = Value.null
optional_int_field (some n) = nat n

-- `attempts[index]`; the caller has compared the length.
unfoldable pub array_at : Array → ℕ → Result Value
array_at nil index = err Error.key_error
array_at (cons x xs) index =
    let rest = array_at xs (index - 1) in if nat_eq index 0 then ok x else rest
