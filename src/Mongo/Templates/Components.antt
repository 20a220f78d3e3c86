-- ===== src/Mongo/Templates/Components.antt =====
-- The components of an alias of src/healthassure_messaging/persistence/mongo.py, written and read again.
use healthassure_messaging.Base.{
  ℕ, String, ◌≡◌, refl, sym, true, false, Option, none, some, List, [], ◌∷◌, nat_eq, length, map,
  All, arith, eq_iff, Bool-cases, inl, inr,
}
use healthassure_messaging.Base.Int.{ℤ}
use healthassure_messaging.Base.Text.{is_blank, is_space}
use healthassure_messaging.Enums.{
  TemplateComponentType, TemplateParameterType, component_type_value, parameter_type_value,
  parameter_type_of, is_button, member_of,
}
use healthassure_messaging.Enums.RoundTrip.{component_type_round_trip, component_type_visible}
use healthassure_messaging.Errors.{ok, require_text}
use healthassure_messaging.ServiceContracts.{
  TemplateComponentSpec, check_component_spec, require_texts, url_at_zero,
}
use healthassure_messaging.Json.{Value, get}
use healthassure_messaging.Mongo.Documents.{
  as_document, doc_text, text_value, list_value, enum_of, array_length, optional_text_field,
}
use healthassure_messaging.Mongo.Sessions.{text_array}
use healthassure_messaging.Mongo.Templates.{
  type_array, button_fields, component_fields, component_array, read_names, read_type, read_types,
  component_types, read_sub_type, read_index, button_data, read_component, read_components,
  optional_index,
}
use healthassure_messaging.Mongo.Templates.Accepted.{Accepted-Returns, AllAccepted}

names_again :
    (names : List String) → require_texts names ≡ ok tt → read_names (text_array names) ≡ ok names
unfolding require_texts require_text read_names text_array
names_again [] h = refl
names_again (n ∷ names) h = ground (arith, names_again names)

type_again : (t : TemplateParameterType) → read_type (Value.str (parameter_type_value t)) ≡ ok t
unfolding read_type require_text is_blank is_space parameter_type_value parameter_type_of enum_of
    member_of
type_again TemplateParameterType.text = refl
type_again TemplateParameterType.image = refl
type_again TemplateParameterType.sensitive_text = refl

types_again : (ts : List TemplateParameterType) → read_types (type_array ts) ≡ ok ts
unfolding read_types type_array
types_again [] = refl
types_again (t ∷ ts) = rw (type_again t, types_again ts)

type_array-length : (ts : List TemplateParameterType) → array_length (type_array ts) ≡ length ts
unfolding type_array array_length
type_array-length [] = refl
type_array-length (t ∷ ts) = omega (arith, type_array-length ts)

-- What a version of the schema can say of a component.
pub data Fits : ℕ → TemplateComponentSpec → Type 0 where
  plain :
      {v : ℕ} {c : TemplateComponentSpec}
      → v ≡ 1
      → is_button c.component_type ≡ false
      → map (λ n. TemplateParameterType.text) c.parameter_names ≡ c.parameter_types
      → Fits v c
  with_image :
      {v : ℕ} {c : TemplateComponentSpec} → v ≡ 2 → is_button c.component_type ≡ false → Fits v c
  any_kind : {v : ℕ} {c : TemplateComponentSpec} → v ≡ 3 → Fits v c

kind_again :
    (t : TemplateComponentType)
    → text_value (some (Value.str (component_type_value t))) ≡ ok (component_type_value t)
unfolding text_value
kind_again t = rw (component_type_visible t)

no_button :
    (v : ℕ) (t : TemplateComponentType)
    → is_button t ≡ false
    → button_data v t none none ≡ ok (none, none)
unfolding button_data is_button
no_button v TemplateComponentType.button b = cc
no_button v _ b = refl

url_visible : is_blank "url" ≡ false
unfolding is_blank is_space
url_visible = refl

a_button :
    (t : TemplateComponentType) (s : Option String) (i : Option ℤ)
    → is_button t ≡ true
    → url_at_zero s i ≡ true
    → button_data 3 t (some (optional_text_field s)) (some (optional_index i)) ≡ ok (s, i)
unfolding button_data is_button url_at_zero read_sub_type read_index require_text
a_button TemplateComponentType.button (some s) (some i) b u =
    ground (arith, eq_iff s "url", url_visible)
a_button TemplateComponentType.button _ _ b u = cc u
a_button _ s i b u = cc b

same_count :
    (ts : List TemplateParameterType) (names : List String)
    → length ts ≡ length names
    → nat_eq (array_length (type_array ts)) (length names) ≡ true
same_count ts names h = ground (arith, type_array-length ts)

component_again :
    (v : ℕ) (c : TemplateComponentSpec)
    → check_component_spec c ≡ ok c
    → Fits v c
    → read_component v (component_fields v c) ≡ ok c
unfolding read_component component_fields get component_types list_value button_fields doc_text
    enum_of
component_again v c h (plain e b types) =
    let p = (Accepted-Returns c).at c h refl in
    let n = p.button_data_valid.1 b in
    rw
      (
        e,
        b,
        names_again c.parameter_names p.texts,
        kind_again c.component_type,
        component_type_round_trip c.component_type,
        no_button 1 c.component_type b,
        types,
        sym n.0,
        sym n.1,
      )
      h
component_again v c h (with_image e b) =
    let p = (Accepted-Returns c).at c h refl in
    let n = p.button_data_valid.1 b in
    rw
      (
        e,
        b,
        names_again c.parameter_names p.texts,
        same_count c.parameter_types c.parameter_names p.same_length,
        types_again c.parameter_types,
        kind_again c.component_type,
        component_type_round_trip c.component_type,
        no_button 2 c.component_type b,
        sym n.0,
        sym n.1,
      )
      h
component_again v c h (any_kind e) = elim (Bool-cases (is_button c.component_type)) [
  | inl b ↦
      let p = (Accepted-Returns c).at c h refl in
      rw
        (
          e,
          b,
          names_again c.parameter_names p.texts,
          same_count c.parameter_types c.parameter_names p.same_length,
          types_again c.parameter_types,
          kind_again c.component_type,
          component_type_round_trip c.component_type,
          a_button c.component_type c.sub_type c.index b (p.button_data_valid.0 b),
        )
        h
  | inr b ↦
      let p = (Accepted-Returns c).at c h refl in
      let n = p.button_data_valid.1 b in
      rw
        (
          e,
          b,
          names_again c.parameter_names p.texts,
          same_count c.parameter_types c.parameter_names p.same_length,
          types_again c.parameter_types,
          kind_again c.component_type,
          component_type_round_trip c.component_type,
          no_button 3 c.component_type b,
          sym n.0,
          sym n.1,
        )
        h
]

pub components_again :
    (v : ℕ) (cs : List TemplateComponentSpec)
    → AllAccepted cs
    → All (Fits v) cs
    → read_components v (component_array v cs) ≡ ok cs
unfolding read_components component_array as_document
components_again v [] valid fits = refl
components_again v (c ∷ cs) valid fits =
    rw (component_again v c valid.0 fits.0, components_again v cs valid.1 fits.1)
