-- ===== src/Mongo/Templates/Accepted.antt =====
-- Components of an alias of src/healthassure_messaging/persistence/mongo.py that their constructor accepts.
use healthassure_messaging.Base.{
  ◌≡◌, sym, ap, ◌∙◌, true, false, not, ◌||◌, none, List, nat_eq, length, All, arith, is_some,
  if◌then◌else◌,
}
use healthassure_messaging.Enums.{is_button}
use healthassure_messaging.Errors.{Error, ok}
use healthassure_messaging.Errors.Returns.{
  Returns, Returns-ok, Returns-run, Returns-then, Returns-raise_if,
}
use healthassure_messaging.ServiceContracts.{
  check_types, TemplateComponentSpec, check_component_spec, require_texts, resolved_types,
  url_at_zero,
}

-- A component that its constructor accepts as it is.
pub record Accepted (c : TemplateComponentSpec) : Type 0 where
  pub texts : require_texts c.parameter_names ≡ ok tt
  pub same_length : length c.parameter_types ≡ length c.parameter_names
  pub button_data_valid :
      (is_button c.component_type ≡ true → url_at_zero c.sub_type c.index ≡ true)
      × (is_button c.component_type ≡ false → (c.sub_type ≡ none) × (c.index ≡ none))

button_data_of :
    (c : TemplateComponentSpec)
    → (if is_button c.component_type
        then not (url_at_zero c.sub_type c.index)
        else is_some c.sub_type || is_some c.index)
      ≡ false
    → (is_button c.component_type ≡ true → url_at_zero c.sub_type c.index ≡ true)
      × (is_button c.component_type ≡ false → (c.sub_type ≡ none) × (c.index ≡ none))
button_data_of c h = (λ b. ground arith, λ b. (ground arith, ground arith))

same_lengths :
    (c : TemplateComponentSpec)
    → let types = resolved_types c.parameter_types c.parameter_names in
      not (nat_eq (length types) (length c.parameter_names)) ≡ false
      → record c { parameter_types = types } ≡ c
      → length c.parameter_types ≡ length c.parameter_names
same_lengths c h e = ap (λ x. length x.parameter_types) (sym e) ∙ ground arith

pub Accepted-Returns :
    (c : TemplateComponentSpec) → Returns (λ r. r ≡ c → Accepted c) (check_component_spec c)
unfolding check_component_spec
Accepted-Returns c = Returns-raise_if _ Error.value_error (λ positioned.
    Returns-raise_if (nat_eq (length c.parameter_names) 0) Error.value_error (λ some_name.
      Returns-run (require_texts c.parameter_names) (λ u texts.
        Returns-raise_if
          (not (
            nat_eq (length (resolved_types c.parameter_types c.parameter_names))
              (length c.parameter_names)))
          Error.type_error
          (λ lengths.
            Returns-then
              (check_types c.component_type (resolved_types c.parameter_types c.parameter_names))
              (Returns-ok (λ same. record {
                texts = texts;
                same_length = same_lengths c lengths same;
                button_data_valid = button_data_of c positioned;
              }))))))

abbrev pub AllAccepted : List TemplateComponentSpec → Type 0
AllAccepted cs = All (λ c. check_component_spec c ≡ ok c) cs
