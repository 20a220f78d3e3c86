-- ===== src/Mongo/Templates.antt =====
-- The stored template aliases of src/healthassure_messaging/persistence/mongo.py: their documents, in
-- three versions of the schema.
pub mod Catalog
mod Accepted
mod Components
mod Versions
pub mod Visible
pub mod Deactivation
use healthassure_messaging.Base.{
  ℕ, String, Bool, true, false, not, ◌&&◌, ◌||◌, Option, none, some, List, [], ◌∷◌, nat_eq, any,
  length, map, if◌then◌else◌,
}
use healthassure_messaging.Base.Int.{ℤ, pos}
use healthassure_messaging.Base.Text.{is_blank}
use healthassure_messaging.Enums.{
  TemplateComponentType, TemplateParameterType, component_type_value, component_type_of,
  parameter_type_value, parameter_type_of, is_button, is_image, is_sensitive,
}
use healthassure_messaging.Errors.{Error, Result, ok, err, ◌>>=◌, ◌>>◌, raise_if, require_text}
use healthassure_messaging.ServiceContracts.{
  TemplateComponentSpec, TemplateAlias, check_component_spec, check_alias,
}
use healthassure_messaging.Json.{Value, Array, Object, nil, cons, end, field, get}
use healthassure_messaging.Mongo.Documents.{
  refused, record_call, as_document, doc_text, doc_int, doc_bool, list_value, enum_of, array_length,
  nat, optional_text_field, mongo_record_schema_version,
}
use healthassure_messaging.Mongo.Policies.{bool_eq}
use healthassure_messaging.Mongo.Sessions.{text_array}

-- `_IMAGE_TEMPLATE_ALIAS_SCHEMA_VERSION` and `TEMPLATE_ALIAS_SCHEMA_VERSION`.
abbrev pub image_template_alias_schema_version : ℕ
image_template_alias_schema_version = 2

abbrev pub template_alias_schema_version : ℕ
template_alias_schema_version = 3

-- Whether an alias has a parameter of a kind, or a button.
abbrev pub contains_type : (TemplateParameterType → Bool) → List TemplateComponentSpec → Bool
contains_type kind components = any (λ c. any kind c.parameter_types) components

abbrev pub contains_button : List TemplateComponentSpec → Bool
contains_button components = any (λ c. is_button c.component_type) components

unfoldable pub alias_version : List TemplateComponentSpec → ℕ
alias_version components =
    if contains_button components || contains_type is_sensitive components
    then template_alias_schema_version
    else if contains_type is_image components
    then image_template_alias_schema_version
    else mongo_record_schema_version

unfoldable pub type_array : List TemplateParameterType → Array
type_array [] = nil
type_array (t ∷ ts) = cons (Value.str (parameter_type_value t)) (type_array ts)

abbrev pub optional_index : Option ℤ → Value
optional_index none = Value.null
optional_index (some i) = Value.num i

-- The entries that only some components have.
unfoldable pub button_fields : TemplateComponentSpec → Object
button_fields c =
    if is_button c.component_type
    then field "sub_type" (optional_text_field c.sub_type)
        (field "index" (optional_index c.index) end)
    else end

unfoldable pub component_fields : ℕ → TemplateComponentSpec → Object
unfolding type_array button_fields text_array
component_fields schema_version c =
    field "component_type" (Value.str (component_type_value c.component_type)) (
      field "parameter_names" (Value.arr (text_array c.parameter_names)) (
        if nat_eq schema_version image_template_alias_schema_version
          || nat_eq schema_version template_alias_schema_version
        then field "parameter_types" (Value.arr (type_array c.parameter_types)) (button_fields c)
        else button_fields c))

unfoldable pub component_array : ℕ → List TemplateComponentSpec → Array
unfolding component_fields
component_array schema_version [] = nil
component_array schema_version (c ∷ cs) =
    cons (Value.obj (component_fields schema_version c)) (component_array schema_version cs)

-- `{**_alias_fields(alias), …}`.
unfoldable pub alias_fields : TemplateAlias → Object → Object
unfolding alias_version component_array
alias_fields alias rest = field "record_schema_version" (nat (alias_version alias.components)) (
    field "template_key" (Value.str alias.key) (
      field "provider_key" (Value.str alias.provider_key) (
        field "template_name" (Value.str alias.template_name) (
          field "language_code" (Value.str alias.language_code) (
            field "components"
              (Value.arr (component_array (alias_version alias.components) alias.components))
              rest)))))

-- `type(schema_version) is int`, of one of the three versions.
unfoldable pub stored_version : Option Value → Result ℕ
stored_version (some (Value.num (pos n))) =
    if nat_eq n mongo_record_schema_version
      || nat_eq n image_template_alias_schema_version
      || nat_eq n template_alias_schema_version
    then ok n
    else refused
stored_version _ = refused

-- The names, each a text that is not blank.
unfoldable pub read_names : Array → Result (List String)
read_names nil = ok []
read_names (cons (Value.str s) values) = do
  raise_if (is_blank s) Error.mongo_record
  rest ← read_names values
  ok (s ∷ rest)
read_names (cons x values) = refused

-- `TemplateParameterType(_require_text(item, …))` for each item.
unfoldable pub read_type : Value → Result TemplateParameterType
read_type (Value.str s) = do t ← require_text s; enum_of (parameter_type_of t)
read_type x = err Error.value_error

unfoldable pub read_types : Array → Result (List TemplateParameterType)
unfolding read_type
read_types nil = ok []
read_types (cons x values) = do t ← read_type x; ts ← read_types values; ok (t ∷ ts)

abbrev pub is_none_value : Option Value → Bool
is_none_value none = true
is_none_value (some Value.null) = true
is_none_value _ = false

unfoldable pub component_types :
    ℕ → List String → Option Value → Result (List TemplateParameterType)
unfolding read_types
component_types schema_version names raw_parameter_types =
    if nat_eq schema_version mongo_record_schema_version
    then (do
      raise_if (not (is_none_value raw_parameter_types)) Error.mongo_record
      ok (map (λ n. TemplateParameterType.text) names))
    else (do
      values ← list_value Error.mongo_record raw_parameter_types
      raise_if (not (nat_eq (array_length values) (length names))) Error.mongo_record
      read_types values)

-- `_require_text(raw_sub_type, …)`, and the index.
unfoldable pub read_sub_type : Option Value → Result String
read_sub_type (some (Value.str s)) = require_text s
read_sub_type _ = err Error.value_error

unfoldable pub read_index : Option Value → Result ℤ
read_index (some (Value.num i)) = ok i
read_index _ = refused

unfoldable pub button_data :
    ℕ → TemplateComponentType → Option Value → Option Value → Result (Option String × Option ℤ)
unfolding read_sub_type read_index
button_data schema_version TemplateComponentType.button raw_sub_type raw_index = do
  raise_if (not (nat_eq schema_version template_alias_schema_version)) Error.mongo_record
  sub_type ← read_sub_type raw_sub_type
  index ← read_index raw_index
  ok (some sub_type, some index)
button_data schema_version component_type raw_sub_type raw_index = do
  raise_if (not (is_none_value raw_sub_type) || not (is_none_value raw_index)) Error.mongo_record
  ok (none, none)

-- One round of the loop over the components.
unfoldable pub read_component : ℕ → Object → Result TemplateComponentSpec
unfolding read_names component_types button_data
read_component schema_version component = do
  raw_names ← list_value Error.mongo_record (get "parameter_names" component)
  names ← read_names raw_names
  parameter_types ← component_types schema_version names (get "parameter_types" component)
  kind ← doc_text component "component_type"
  component_type ← enum_of (component_type_of kind)
  (sub_type, index) ←
      button_data schema_version component_type (get "sub_type" component) (get "index" component)
  check_component_spec (record {
    component_type = component_type;
    parameter_names = names;
    parameter_types = parameter_types;
    sub_type = sub_type;
    index = index;
  })

unfoldable pub read_components : ℕ → Array → Result (List TemplateComponentSpec)
unfolding read_component
read_components schema_version nil = ok []
read_components schema_version (cons x values) = do
  component ← as_document x
  c ← read_component schema_version component
  cs ← read_components schema_version values
  ok (c ∷ cs)

-- The last test: `a is not b` is `a != b` on Booleans.
unfoldable pub version_mismatch : ℕ → List TemplateComponentSpec → Bool
version_mismatch v cs =
    let image = contains_type is_image cs in
    let sensitive = contains_type is_sensitive cs in
    let button = contains_button cs in
    not (bool_eq (nat_eq v mongo_record_schema_version) (not image && not sensitive && not button))
    || not (
        bool_eq (nat_eq v image_template_alias_schema_version)
          (image && not sensitive && not button))
    || not (bool_eq (nat_eq v template_alias_schema_version) (sensitive && button && not image))

unfoldable pub build_alias : Object → ℕ → Array → Result TemplateAlias
unfolding read_components version_mismatch
build_alias document schema_version components_value = do
  doc_bool document "active"
  doc_int document "revision" 1
  doc_text document "actor_id"
  doc_int document "updated_at_epoch" 0
  components ← read_components schema_version components_value
  key ← doc_text document "template_key"
  provider_key ← doc_text document "provider_key"
  template_name ← doc_text document "template_name"
  language_code ← doc_text document "language_code"
  alias ← check_alias (record {
    key = key;
    provider_key = provider_key;
    template_name = template_name;
    language_code = language_code;
    components = components;
  })
  raise_if (version_mismatch schema_version alias.components) Error.mongo_record
  ok alias

unfoldable pub alias_from_document : Value → Result TemplateAlias
unfolding stored_version build_alias
alias_from_document v = do
  document ← as_document v
  schema_version ← stored_version (get "record_schema_version" document)
  components_value ← list_value Error.mongo_record (get "components" document)
  record_call (build_alias document schema_version components_value)
