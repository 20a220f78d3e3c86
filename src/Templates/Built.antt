-- ===== src/Templates/Built.antt =====
-- What `build_template_message` of src/healthassure_messaging/templates.py puts into a message.
use mathlib.Core.Path.{subst}
use healthassure_messaging.Base.{
  negated_test, String, ◌≡◌, refl, sym, ap, true, some, List, [], ◌∷◌, all, elem, arith,
}
use healthassure_messaging.Enums.{TemplateParameterType}
use healthassure_messaging.Errors.Returns.{
  Returns, Returns-ok, Returns-err, Returns-bind, Returns-then, Returns-raise_if,
}
use healthassure_messaging.Errors.{Error, ok, require_text}
use healthassure_messaging.Contracts.{
  TemplateParameter, TemplateComponent, TemplateReference, Message, check_parameter,
  check_component, check_reference,
}
use healthassure_messaging.ServiceContracts.{TemplateComponentSpec, TemplateAlias}
use healthassure_messaging.Templates.{
  Supplied, Parameters, check_supplied, find_supplied, names, required_names, typed_parameter,
  provided_item, build_parameters, build_component, build_components, build_template_message,
}

-- The parameter for a supplied value, under the type that the alias declares.
pub data Typed : TemplateParameterType → Supplied → TemplateParameter → Type 0 where
  text :
      {s : String} → Typed TemplateParameterType.text (Supplied.plain s) (TemplateParameter.text s)
  sensitive :
      {s : String}
      → Typed TemplateParameterType.sensitive_text
          (Supplied.sensitive s)
          (TemplateParameter.sensitive_text s)
  image :
      {m : String}
      → Typed TemplateParameterType.image (Supplied.image m) (TemplateParameter.image m)

-- One parameter for each declared name, in their order.
pub data Filled (ps : Parameters)
    : List String → List TemplateParameterType → List TemplateParameter → Type 0 where
  done : Filled ps [] [] []
  next :
      {n : String} {ns : List String} {t : TemplateParameterType} {ts : List TemplateParameterType}
      {p : TemplateParameter} {qs : List TemplateParameter} (v : Supplied)
      → find_supplied n ps ≡ some v
      → Typed t v p
      → Filled ps ns ts qs
      → Filled ps (n ∷ ns) (t ∷ ts) (p ∷ qs)

pub record Assembled (ps : Parameters) (spec : TemplateComponentSpec) (c : TemplateComponent)
    : Type 0 where
  pub kind : c.component_type ≡ spec.component_type
  pub sub_type : c.sub_type ≡ spec.sub_type
  pub index : c.index ≡ spec.index
  pub valid : check_component c ≡ ok c
  pub filled : Filled ps spec.parameter_names spec.parameter_types c.parameters

abbrev pub AllAssembled : Parameters → List TemplateComponentSpec → List TemplateComponent → Type 0
AllAssembled ps [] [] = Unit
AllAssembled ps (s ∷ ss) (c ∷ cs) = Assembled ps s c × AllAssembled ps ss cs
AllAssembled ps _ _ = ⊥

typed_parameter-Typed :
    (t : TemplateParameterType) (v : Supplied) → Returns (Typed t v) (typed_parameter t v)
unfolding typed_parameter check_parameter
typed_parameter-Typed TemplateParameterType.text (Supplied.plain s) =
    Returns-bind {P = λ _. Unit} (record { at = λ _ _. tt }) (λ _ _. Returns-ok Typed.text)
typed_parameter-Typed TemplateParameterType.sensitive_text (Supplied.sensitive s) =
    Returns-ok Typed.sensitive
typed_parameter-Typed TemplateParameterType.image (Supplied.image m) = Returns-ok Typed.image
typed_parameter-Typed _ _ = Returns-err Error.template_parameter

provided_item_found :
    (ps : Parameters) (n : String) → Returns (λ v. find_supplied n ps ≡ some v) (provided_item ps n)
unfolding provided_item
provided_item_found ps n = record { at = λ v h. ground arith }

build_parameters-Filled :
    (ps : Parameters) (ns : List String) (ts : List TemplateParameterType)
    → Returns (Filled ps ns ts) (build_parameters ps ns ts)
unfolding build_parameters
build_parameters-Filled ps [] [] = Returns-ok Filled.done
build_parameters-Filled ps (n ∷ ns) (t ∷ ts) = Returns-bind (provided_item_found ps n) (λ v found.
    Returns-bind (typed_parameter-Typed t v) (λ p typed.
      Returns-bind (build_parameters-Filled ps ns ts)
        (λ qs rest. Returns-ok (Filled.next v found typed rest))))
build_parameters-Filled ps _ _ = Returns-err Error.value_error

check_component-Returns :
    (x : TemplateComponent)
    → Returns (λ c. (c ≡ x) × (check_component x ≡ ok x)) (check_component x)
unfolding check_component
check_component-Returns x = record { at = λ c h. (ground arith, ground arith) }

build_component-Assembled :
    (ps : Parameters) (spec : TemplateComponentSpec)
    → Returns (Assembled ps spec) (build_component ps spec)
unfolding build_component
build_component-Assembled ps spec =
    Returns-bind (build_parameters-Filled ps spec.parameter_names spec.parameter_types)
      (λ qs filled. record {
        at = λ c h.
            let found = (check_component-Returns _).at c h in
            subst (Assembled ps spec) (sym found.0) (record {
              kind = refl;
              sub_type = refl;
              index = refl;
              valid = found.1;
              filled = filled;
            });
      })

build_components-AllAssembled :
    (ps : Parameters) (specs : List TemplateComponentSpec)
    → Returns (AllAssembled ps specs) (build_components ps specs)
unfolding build_components
build_components-AllAssembled ps [] = Returns-ok tt
build_components-AllAssembled ps (s ∷ ss) =
    Returns-bind (build_component-Assembled ps s)
      (λ c a. Returns-bind (build_components-AllAssembled ps ss) (λ cs rest. Returns-ok (a, rest)))

abbrev pub reference_of : TemplateAlias → TemplateReference
reference_of alias = record { name = alias.template_name; language_code = alias.language_code }

-- A message for an alias: its template, its components in their order, every declared name supplied
-- and no other.
pub record Built (alias : TemplateAlias) (ps : Parameters) (m : Message) : Type 0 where
  pub components : List TemplateComponent
  pub message : m ≡ Message.template (reference_of alias) components
  pub assembled : AllAssembled ps alias.components components
  pub complete : all (λ n. elem n (names ps)) (required_names alias.components) ≡ true
  pub exact : all (λ n. elem n (required_names alias.components)) (names ps) ≡ true

check_reference-Returns : (x : TemplateReference) → Returns (λ r. r ≡ x) (check_reference x)
unfolding check_reference require_text
check_reference-Returns x = record { at = λ r h. ground arith }

message-Built :
    (alias : TemplateAlias) (ps : Parameters)
    → Returns (Built alias ps) (build_template_message alias ps)
unfolding build_template_message
message-Built alias ps = Returns-then (check_supplied ps) (
    Returns-raise_if _ Error.missing_template_parameter (λ complete.
      Returns-raise_if _ Error.extra_template_parameter (λ exact.
        Returns-bind (build_components-AllAssembled ps alias.components) (λ cs assembled.
          Returns-bind (check_reference-Returns (reference_of alias)) (λ r same.
            Returns-ok (record {
              components = cs;
              message = ap (λ x. Message.template x cs) same;
              assembled = assembled;
              complete = negated_test _ complete;
              exact = negated_test _ exact;
            }))))))

-- A message that is built has the alias's template and its components in their order, each accepted
-- by its constructor, with the alias's metadata and, for each declared name in order, the value
-- supplied under that name as a parameter of the declared type. The supplied names are the declared
-- ones.
pub build_template_message-Built :
    (alias : TemplateAlias) (ps : Parameters) (m : Message)
    → build_template_message alias ps ≡ ok m
    → Built alias ps m
build_template_message-Built alias ps m h = (message-Built alias ps).at m h
