-- ===== src/Serialization/RoundTrip.antt =====
-- Requests that src/healthassure_messaging/serialization.py can store and read back.
use healthassure_messaging.Base.{
  String, ◌≡◌, refl, true, false, Option, none, some, List, [], ◌∷◌, All, is_some, arith,
}
use healthassure_messaging.Base.Int.{ℤ}
use healthassure_messaging.Base.Text.{is_blank}
use healthassure_messaging.Enums.{
  TemplateComponentType, component_type_value, component_type_of, is_button,
}
use healthassure_messaging.Errors.{ok, require_text}
use healthassure_messaging.Contracts.{
  TemplateParameter, TemplateComponent, TemplateReference, Message, MessageRequest, check_parameter,
  check_component, check_reference, check_request, text_message, sensitive_parameter,
  button_metadata,
}
use healthassure_messaging.Json.{get, item, keys, exact_keys}
use healthassure_messaging.Serialization.{
  parameter_to_data, parameters_to_data, optional_str, optional_num, component_to_data,
  components_to_data, message_to_data, envelope,
}
use healthassure_messaging.Serialization.Reading.{
  expect_object, expect_list, expect_string, expect_get_string, expect_exact_keys, expect_integer,
  parse_text_parameter, parse_image_parameter, parse_typed_parameter, parse_parameter,
  parse_parameters, parse_metadata, parse_component, parse_components, parse_text_message,
  parse_template_message, parse_message, supported_version, parse_envelope,
}

-- A parameter that its constructor accepts and whose text is not sensitive.
pub record Plain (p : TemplateParameter) : Type 0 where
  pub valid : check_parameter p ≡ ok p
  pub disclosed : sensitive_parameter p ≡ false

-- A component that its constructor accepts, a button with its metadata.
pub record Storable (c : TemplateComponent) : Type 0 where
  pub valid : check_component c ≡ ok c
  pub metadata : is_button c.component_type ≡ true → is_some c.sub_type ≡ true
  pub parameters : All Plain c.parameters

pub data StorableMessage : Message → Type 0 where
  text : {body : String} → is_blank body ≡ false → StorableMessage (Message.text body)
  template :
      {t : TemplateReference} {cs : List TemplateComponent}
      → check_reference t ≡ ok t
      → All Storable cs
      → StorableMessage (Message.template t cs)

parse_parameter_round_trip :
    (p : TemplateParameter) → Plain p → parse_parameter 3 (parameter_to_data p) ≡ ok p
unfolding parse_parameter parameter_to_data expect_object expect_get_string get expect_string
    parse_typed_parameter parse_text_parameter parse_image_parameter expect_exact_keys exact_keys
    keys item
parse_parameter_round_trip (TemplateParameter.text s) h = h.valid
parse_parameter_round_trip (TemplateParameter.image m) h = h.valid
parse_parameter_round_trip (TemplateParameter.sensitive_text s) h = absurd (cc h.disclosed)

parse_parameters_round_trip :
    (ps : List TemplateParameter)
    → All Plain ps
    → parse_parameters 3 (parameters_to_data ps) ≡ ok ps
unfolding parse_parameters parameters_to_data
parse_parameters_round_trip [] h = refl
parse_parameters_round_trip (p ∷ ps) h =
    rw (parse_parameter_round_trip p h.0, parse_parameters_round_trip ps h.1) refl

abbrev pub component :
    TemplateComponentType → Option String → Option ℤ → List TemplateParameter → TemplateComponent
component t sub_type index ps = record {
  component_type = t;
  parameters = ps;
  sub_type = sub_type;
  index = index;
}

-- Metadata that the constructor refuses.
unlocated :
    (t : TemplateComponentType) (s : String) (ps : List TemplateParameter)
    → is_button t ≡ true
    → ¬ (check_component (component t (some s) none ps) ≡ ok (component t (some s) none ps))
unfolding check_component button_metadata
unlocated t s ps b h = ground arith

misplaced_type :
    (t : TemplateComponentType) (s : String) (i : Option ℤ) (ps : List TemplateParameter)
    → is_button t ≡ false
    → ¬ (check_component (component t (some s) i ps) ≡ ok (component t (some s) i ps))
unfolding check_component
misplaced_type t s i ps b h = ground arith

misplaced_index :
    (t : TemplateComponentType) (i : ℤ) (ps : List TemplateParameter)
    → is_button t ≡ false
    → ¬ (check_component (component t none (some i) ps) ≡ ok (component t none (some i) ps))
unfolding check_component
misplaced_index t i ps b h = ground arith

component_round_trip :
    (t : TemplateComponentType) (sub_type : Option String) (index : Option ℤ)
    (ps : List TemplateParameter)
    → check_component (component t sub_type index ps) ≡ ok (component t sub_type index ps)
    → (is_button t ≡ true → is_some sub_type ≡ true)
    → parse_parameters 3 (parameters_to_data ps) ≡ ok ps
    → parse_component 3 (component_to_data (component t sub_type index ps))
      ≡ ok (component t sub_type index ps)
unfolding parse_component component_to_data expect_object expect_get_string get expect_string
    expect_integer expect_list expect_exact_keys exact_keys keys item parse_metadata
    component_type_value component_type_of is_button optional_str optional_num
component_round_trip TemplateComponentType.header none none ps v m p = rw p v
component_round_trip TemplateComponentType.body none none ps v m p = rw p v
component_round_trip TemplateComponentType.button (some s) (some i) ps v m p = rw p v
component_round_trip TemplateComponentType.button none i ps v m p = absurd (cc (m refl))
component_round_trip TemplateComponentType.button (some s) none ps v m p =
    absurd (unlocated TemplateComponentType.button s ps refl v)
component_round_trip TemplateComponentType.header (some s) i ps v m p =
    absurd (misplaced_type TemplateComponentType.header s i ps refl v)
component_round_trip TemplateComponentType.header none (some i) ps v m p =
    absurd (misplaced_index TemplateComponentType.header i ps refl v)
component_round_trip TemplateComponentType.body (some s) i ps v m p =
    absurd (misplaced_type TemplateComponentType.body s i ps refl v)
component_round_trip TemplateComponentType.body none (some i) ps v m p =
    absurd (misplaced_index TemplateComponentType.body i ps refl v)

parse_component_round_trip :
    (c : TemplateComponent) → Storable c → parse_component 3 (component_to_data c) ≡ ok c
parse_component_round_trip c h =
    component_round_trip c.component_type c.sub_type c.index c.parameters h.valid h.metadata
      (parse_parameters_round_trip c.parameters h.parameters)

parse_components_round_trip :
    (cs : List TemplateComponent)
    → All Storable cs
    → parse_components 3 (components_to_data cs) ≡ ok cs
unfolding parse_components components_to_data
parse_components_round_trip [] h = refl
parse_components_round_trip (c ∷ cs) h =
    rw (parse_component_round_trip c h.0, parse_components_round_trip cs h.1) refl

parse_message_round_trip :
    (m : Message) → StorableMessage m → parse_message 3 (message_to_data m) ≡ ok m
unfolding parse_message message_to_data expect_object expect_get_string get expect_string
    expect_list expect_exact_keys exact_keys keys item parse_text_message parse_template_message
    text_message require_text
parse_message_round_trip (Message.text body) (StorableMessage.text h) = rw h refl
parse_message_round_trip (Message.template t cs) (StorableMessage.template r h) =
    rw (parse_components_round_trip cs h, r) refl

pub parse_envelope_round_trip :
    (r : MessageRequest)
    → check_request r ≡ ok r
    → StorableMessage r.message
    → parse_envelope (envelope r) ≡ ok r
unfolding parse_envelope envelope expect_object get expect_string expect_exact_keys exact_keys keys
    item supported_version
parse_envelope_round_trip r v m = rw (parse_message_round_trip r.message m) v
