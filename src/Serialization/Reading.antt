-- ===== src/Serialization/Reading.antt =====
-- The reading half of src/healthassure_messaging/serialization.py.
use healthassure_messaging.Base.{
  ℕ, String, Bool, false, not, ◌&&◌, ◌||◌, Option, none, some, List, [], ◌∷◌, ◌==◌, nat_eq,
  if◌then◌else◌, elem,
}
use healthassure_messaging.Base.Int.{ℤ, pos}
use healthassure_messaging.Enums.{TemplateComponentType, component_type_of, is_button}
use healthassure_messaging.Errors.{Error, Result, ok, err, ◌>>=◌, ◌>>◌, raise_if}
use healthassure_messaging.Contracts.{
  TemplateParameter, TemplateComponent, Message, MessageRequest, check_parameter, check_component,
  check_reference, check_request, text_message,
}
use healthassure_messaging.Json.{
  Value, Array, Object, nil, cons, end, field, JsonCodec, Loaded, get, item, exact_keys, keys,
}

-- The two hooks that `json.loads` calls: a constant raises, and so does an object with a key twice.
unfoldable mutual
  pub apply_hooks : Value → Result Value
  apply_hooks Value.constant = err Error.request_serialization
  apply_hooks Value.null = ok Value.null
  apply_hooks Value.real = ok Value.real
  apply_hooks (Value.bool b) = ok (Value.bool b)
  apply_hooks (Value.num n) = ok (Value.num n)
  apply_hooks (Value.str s) = ok (Value.str s)
  apply_hooks (Value.arr xs) = apply_hooks_items xs >>= λ ys. ok (Value.arr ys)
  apply_hooks (Value.obj d) = reject_duplicate_keys d >>= λ e. ok (Value.obj e)

  pub apply_hooks_items : Array → Result Array
  apply_hooks_items nil = ok nil
  apply_hooks_items (cons x xs) =
      apply_hooks x >>= λ y. (apply_hooks_items xs >>= λ ys. ok (cons y ys))

  pub reject_duplicate_keys : Object → Result Object
  reject_duplicate_keys end = ok end
  reject_duplicate_keys (field k v d) =
      if elem k (keys d)
      then err Error.request_serialization
      else (apply_hooks v >>= λ w. (reject_duplicate_keys d >>= λ e. ok (field k w e)))

unfoldable pub expect_object : Value → Result Object
expect_object (Value.obj d) = ok d
expect_object _ = err Error.request_serialization

unfoldable pub expect_list : Value → Result Array
expect_list (Value.arr xs) = ok xs
expect_list _ = err Error.request_serialization

unfoldable pub expect_string : Value → Result String
expect_string (Value.str s) = ok s
expect_string _ = err Error.request_serialization

-- `_expect_string(d.get(key), …)`: a missing key gives None, which is no string.
unfoldable pub expect_get_string : String → Object → Result String
expect_get_string k d = elim (get k d) [
  | none ↦ err Error.request_serialization
  | some v ↦ expect_string v
]

unfoldable pub expect_exact_keys : Object → List String → Result Object
expect_exact_keys d expected =
    if exact_keys d expected then ok d else err Error.request_serialization

unfoldable pub expect_integer : Value → Result ℤ
expect_integer (Value.num n) = ok n
expect_integer _ = err Error.request_serialization

unfoldable pub is_true : Value → Bool
is_true (Value.bool b) = b
is_true _ = false

unfoldable pub parse_text_parameter : Object → Result TemplateParameter
parse_text_parameter parameter = do
  expect_exact_keys parameter ("type" ∷ "text" ∷ [])
  t ← item "text" parameter
  s ← expect_string t
  check_parameter (TemplateParameter.text s)

unfoldable pub parse_image_parameter : Object → Result TemplateParameter
parse_image_parameter parameter = do
  expect_exact_keys parameter ("type" ∷ "media_id" ∷ [])
  m ← item "media_id" parameter
  s ← expect_string m
  check_parameter (TemplateParameter.image s)

unfoldable pub parse_sensitive_parameter : Object → Result TemplateParameter
parse_sensitive_parameter parameter = do
  expect_exact_keys parameter ("type" ∷ "redacted" ∷ [])
  redacted ← item "redacted" parameter
  raise_if (not (is_true redacted)) Error.request_serialization
  err Error.sensitive_request_unavailable

-- The branches on the type of a parameter.
unfoldable pub parse_typed_parameter : ℕ → Object → String → Result TemplateParameter
parse_typed_parameter schema_version parameter parameter_type =
    if parameter_type == "text"
    then parse_text_parameter parameter
    else if parameter_type == "image" && (nat_eq schema_version 2 || nat_eq schema_version 3)
    then parse_image_parameter parameter
    else if parameter_type == "sensitive_text" && nat_eq schema_version 3
    then parse_sensitive_parameter parameter
    else err Error.request_serialization

-- One round of the loop over the parameters.
unfoldable pub parse_parameter : ℕ → Value → Result TemplateParameter
parse_parameter schema_version raw = do
  parameter ← expect_object raw
  parameter_type ← expect_get_string "type" parameter
  parse_typed_parameter schema_version parameter parameter_type

unfoldable pub parse_parameters : ℕ → Array → Result (List TemplateParameter)
parse_parameters schema_version nil = ok []
parse_parameters schema_version (cons x xs) = do
  p ← parse_parameter schema_version x
  ps ← parse_parameters schema_version xs
  ok (p ∷ ps)

-- `sub_type` and `index` of a component, after the test of its keys.
unfoldable pub parse_metadata :
    ℕ → TemplateComponentType → Object → Result (Option String × Option ℤ)
parse_metadata schema_version kind component =
    if is_button kind && nat_eq schema_version 3
    then (do
      expect_exact_keys component ("type" ∷ "sub_type" ∷ "index" ∷ "parameters" ∷ [])
      s ← item "sub_type" component
      sub_type ← expect_string s
      i ← item "index" component
      index ← expect_integer i
      ok (some sub_type, some index))
    else (do expect_exact_keys component ("type" ∷ "parameters" ∷ []); ok (none, none))

unfoldable pub parse_component : ℕ → Value → Result TemplateComponent
parse_component schema_version value = do
  component ← expect_object value
  v ← expect_get_string "type" component
  kind ← elim (component_type_of v) [ none ↦ err Error.request_serialization | some t ↦ ok t ]
  metadata ← parse_metadata schema_version kind component
  raw ← item "parameters" component
  items ← expect_list raw
  parameters ← parse_parameters schema_version items
  check_component (record {
    component_type = kind;
    parameters = parameters;
    sub_type = metadata.0;
    index = metadata.1;
  })

unfoldable pub parse_components : ℕ → Array → Result (List TemplateComponent)
parse_components schema_version nil = ok []
parse_components schema_version (cons x xs) = do
  c ← parse_component schema_version x
  cs ← parse_components schema_version xs
  ok (c ∷ cs)

unfoldable pub parse_text_message : Object → Result Message
parse_text_message message = do
  expect_exact_keys message ("type" ∷ "body" ∷ [])
  b ← item "body" message
  body ← expect_string b
  text_message body

unfoldable pub parse_template_message : ℕ → Object → Result Message
parse_template_message schema_version message = do
  expect_exact_keys message ("type" ∷ "template" ∷ "components" ∷ [])
  t ← item "template" message
  object ← expect_object t
  template ← expect_exact_keys object ("name" ∷ "language_code" ∷ [])
  cs ← item "components" message
  items ← expect_list cs
  components ← parse_components schema_version items
  n ← item "name" template
  name ← expect_string n
  l ← item "language_code" template
  language_code ← expect_string l
  reference ← check_reference (record { name = name; language_code = language_code })
  ok (Message.template reference components)

unfoldable pub parse_message : ℕ → Value → Result Message
parse_message schema_version value = do
  message ← expect_object value
  message_type ← expect_get_string "type" message
  (if message_type == "text"
      then parse_text_message message
      else if message_type == "template"
      then parse_template_message schema_version message
      else err Error.request_serialization)

-- `type(v) is int and v in {1, 2, 3}`.
unfoldable pub supported_version : Value → Result ℕ
supported_version (Value.num (pos n)) =
    if nat_eq n 1 || nat_eq n 2 || nat_eq n 3 then ok n else err Error.unsupported_schema_version
supported_version _ = err Error.unsupported_schema_version

unfoldable pub parse_envelope : Value → Result MessageRequest
parse_envelope parsed = do
  object ← expect_object parsed
  document ← expect_exact_keys object ("schema_version" ∷ "request" ∷ [])
  version ← item "schema_version" document
  schema_version ← supported_version version
  q ← item "request" document
  inner ← expect_object q
  request ←
      expect_exact_keys inner ("recipient" ∷ "message" ∷ "correlation_id" ∷ "idempotency_key" ∷ [])
  r ← item "recipient" request
  recipient ← expect_string r
  m ← item "message" request
  message ← parse_message schema_version m
  c ← item "correlation_id" request
  correlation_id ← expect_string c
  k ← item "idempotency_key" request
  idempotency_key ← expect_string k
  check_request (record {
    recipient = recipient;
    message = message;
    correlation_id = correlation_id;
    idempotency_key = idempotency_key;
  })

-- `deserialize_request` on a text. Of the exceptions of `json.loads` only JSONDecodeError is caught.
unfoldable pub deserialize_request : JsonCodec → String → Result MessageRequest
deserialize_request codec payload = elim (codec.loads payload) [
  | Loaded.malformed ↦ err Error.request_serialization
  | Loaded.raised e ↦ err e
  | Loaded.document raw ↦ apply_hooks raw >>= parse_envelope
]
