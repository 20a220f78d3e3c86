-- ===== src/Templates.antt =====
-- src/healthassure_messaging/templates.py: the in-memory catalog and the building of a template
-- message from an alias.
pub mod Built
use healthassure_messaging.Base.{
  String, Bool, true, false, not, Option, none, some, List, [], ◌∷◌, ◌++◌, ◌==◌, if◌then◌else◌,
  elem, all, map, is_some,
}
use healthassure_messaging.Base.Text.{is_blank}
use healthassure_messaging.Enums.{TemplateParameterType}
use healthassure_messaging.Errors.{Error, Result, ok, err, ◌>>=◌, ◌>>◌, raise_if}
use healthassure_messaging.Contracts.{
  TemplateParameter, TemplateComponent, Message, check_parameter, check_component, check_reference,
}
use healthassure_messaging.ServiceContracts.{TemplateComponentSpec, TemplateAlias}

-- `InMemoryTemplateCatalog._aliases`, in insertion order.
abbrev pub TemplateCatalog : Type 0
TemplateCatalog = List (String × TemplateAlias)

unfoldable pub find_alias : String → TemplateCatalog → Option TemplateAlias
find_alias key [] = none
find_alias key ((k, a) ∷ rest) = if k == key then some a else find_alias key rest

-- The loop of `__init__`.
unfoldable pub add_aliases : TemplateCatalog → List TemplateAlias → Result TemplateCatalog
add_aliases resolved [] = ok resolved
add_aliases resolved (alias ∷ aliases) =
    let rest = add_aliases (resolved ++ ((alias.key, alias) ∷ [])) aliases in
    if is_some (find_alias alias.key resolved) then err Error.duplicate_template_alias else rest

unfoldable pub new_catalog : List TemplateAlias → Result TemplateCatalog
new_catalog aliases = add_aliases [] aliases

unfoldable pub get : TemplateCatalog → String → Result (Option TemplateAlias)
get catalog template_key =
    if is_blank template_key then err Error.value_error else ok (find_alias template_key catalog)

-- What a caller supplies for a parameter: a `str`, one of the two parameter objects, or a value of
-- another type.
pub data Supplied : Type 0 where
  plain sensitive image : String → Supplied
  other : Supplied

-- A mapping from names, which are distinct.
abbrev pub Parameters : Type 0
Parameters = List (String × Supplied)

unfoldable pub supplied_ok : Supplied → Bool
supplied_ok (Supplied.plain s) = not (is_blank s)
supplied_ok (Supplied.sensitive s) = true
supplied_ok (Supplied.image m) = true
supplied_ok Supplied.other = false

-- The loop over `parameters.items()`.
unfoldable pub check_supplied : Parameters → Result (Unit {0})
check_supplied [] = ok tt
check_supplied ((name, value) ∷ rest) = do
  raise_if (is_blank name) Error.template_parameter
  raise_if (not (supplied_ok value)) Error.template_parameter
  check_supplied rest

unfoldable pub find_supplied : String → Parameters → Option Supplied
find_supplied name [] = none
find_supplied name ((n, v) ∷ rest) = if n == name then some v else find_supplied name rest

unfoldable pub names : Parameters → List String
names parameters = map (λ p. p.0) parameters

-- The set `required`, as the list of the names in their order.
unfoldable pub required_names : List TemplateComponentSpec → List String
required_names [] = []
required_names (c ∷ cs) = c.parameter_names ++ required_names cs

-- One value of the inner loop, by the type that the alias declares.
unfoldable pub typed_parameter : TemplateParameterType → Supplied → Result TemplateParameter
typed_parameter TemplateParameterType.text (Supplied.plain s) =
    check_parameter (TemplateParameter.text s)
typed_parameter TemplateParameterType.sensitive_text (Supplied.sensitive s) =
    ok (TemplateParameter.sensitive_text s)
typed_parameter TemplateParameterType.image (Supplied.image m) = ok (TemplateParameter.image m)
typed_parameter _ _ = err Error.template_parameter

-- `provided[name]`.
unfoldable pub provided_item : Parameters → String → Result Supplied
provided_item provided name = elim (find_supplied name provided) [
  | none ↦ err Error.key_error
  | some v ↦ ok v
]

-- The inner loop; `zip(…, strict=True)` raises on lists of different lengths.
unfoldable pub build_parameters :
    Parameters → List String → List TemplateParameterType → Result (List TemplateParameter)
build_parameters provided [] [] = ok []
build_parameters provided (n ∷ ns) (t ∷ ts) = do
  value ← provided_item provided n
  p ← typed_parameter t value
  ps ← build_parameters provided ns ts
  ok (p ∷ ps)
build_parameters provided _ _ = err Error.value_error

unfoldable pub build_component : Parameters → TemplateComponentSpec → Result TemplateComponent
build_component provided spec = do
  parameters ← build_parameters provided spec.parameter_names spec.parameter_types
  check_component (record {
    component_type = spec.component_type;
    parameters = parameters;
    sub_type = spec.sub_type;
    index = spec.index;
  })

unfoldable pub build_components :
    Parameters → List TemplateComponentSpec → Result (List TemplateComponent)
build_components provided [] = ok []
build_components provided (s ∷ ss) = do
  c ← build_component provided s
  cs ← build_components provided ss
  ok (c ∷ cs)

unfoldable pub build_template_message : TemplateAlias → Parameters → Result Message
build_template_message alias parameters = do
  check_supplied parameters
  let required = required_names alias.components
  let supplied = names parameters
  raise_if (not (all (λ n. elem n supplied) required)) Error.missing_template_parameter
  raise_if (not (all (λ n. elem n required) supplied)) Error.extra_template_parameter
  components ← build_components parameters alias.components
  reference ←
      check_reference (record { name = alias.template_name; language_code = alias.language_code })
  ok (Message.template reference components)
