-- ===== src/Enums/RoundTrip.antt =====
-- Each member is found again by its text, which is not blank.
use healthassure_messaging.Base.Text.{is_blank}
use healthassure_messaging.Base.{false, ◌≡◌, refl, some}
use healthassure_messaging.Enums.{
  TemplateComponentType, component_type_value, component_type_of, SendDisposition,
  disposition_value, disposition_of, IntentState, state_value, state_of, TemplateParameterType,
  parameter_type_value, parameter_type_of, ErrorCategory, category_value, category_of,
}

pub component_type_round_trip :
    (t : TemplateComponentType) → component_type_of (component_type_value t) ≡ some t
unfolding component_type_of component_type_value
component_type_round_trip TemplateComponentType.header = refl
component_type_round_trip TemplateComponentType.body = refl
component_type_round_trip TemplateComponentType.button = refl

pub disposition_round_trip : (x : SendDisposition) → disposition_of (disposition_value x) ≡ some x
unfolding disposition_of disposition_value
disposition_round_trip SendDisposition.accepted = refl
disposition_round_trip SendDisposition.rejected = refl
disposition_round_trip SendDisposition.unknown = refl

pub state_round_trip : (x : IntentState) → state_of (state_value x) ≡ some x
unfolding state_of state_value
state_round_trip IntentState.pending = refl
state_round_trip IntentState.dispatching = refl
state_round_trip IntentState.accepted = refl
state_round_trip IntentState.rejected = refl
state_round_trip IntentState.unknown = refl

pub parameter_type_round_trip :
    (x : TemplateParameterType) → parameter_type_of (parameter_type_value x) ≡ some x
unfolding parameter_type_of parameter_type_value
parameter_type_round_trip TemplateParameterType.text = refl
parameter_type_round_trip TemplateParameterType.image = refl
parameter_type_round_trip TemplateParameterType.sensitive_text = refl

pub category_round_trip : (x : ErrorCategory) → category_of (category_value x) ≡ some x
unfolding category_of category_value
category_round_trip ErrorCategory.validation = refl
category_round_trip ErrorCategory.authentication = refl
category_round_trip ErrorCategory.authorization = refl
category_round_trip ErrorCategory.rate_limit = refl
category_round_trip ErrorCategory.provider_temporary = refl
category_round_trip ErrorCategory.provider_permanent = refl
category_round_trip ErrorCategory.network = refl
category_round_trip ErrorCategory.timeout = refl
category_round_trip ErrorCategory.protocol = refl
category_round_trip ErrorCategory.unsupported = refl
category_round_trip ErrorCategory.unknown = refl

pub disposition_visible : (x : SendDisposition) → is_blank (disposition_value x) ≡ false
unfolding disposition_value is_blank
disposition_visible SendDisposition.accepted = refl
disposition_visible SendDisposition.rejected = refl
disposition_visible SendDisposition.unknown = refl

pub state_visible : (x : IntentState) → is_blank (state_value x) ≡ false
unfolding state_value is_blank
state_visible IntentState.pending = refl
state_visible IntentState.dispatching = refl
state_visible IntentState.accepted = refl
state_visible IntentState.rejected = refl
state_visible IntentState.unknown = refl

pub component_type_visible : (x : TemplateComponentType) → is_blank (component_type_value x) ≡ false
unfolding component_type_value is_blank
component_type_visible TemplateComponentType.header = refl
component_type_visible TemplateComponentType.body = refl
component_type_visible TemplateComponentType.button = refl

pub parameter_type_visible : (x : TemplateParameterType) → is_blank (parameter_type_value x) ≡ false
unfolding parameter_type_value is_blank
parameter_type_visible TemplateParameterType.text = refl
parameter_type_visible TemplateParameterType.image = refl
parameter_type_visible TemplateParameterType.sensitive_text = refl

pub category_visible : (x : ErrorCategory) → is_blank (category_value x) ≡ false
unfolding category_value is_blank
category_visible ErrorCategory.validation = refl
category_visible ErrorCategory.authentication = refl
category_visible ErrorCategory.authorization = refl
category_visible ErrorCategory.rate_limit = refl
category_visible ErrorCategory.provider_temporary = refl
category_visible ErrorCategory.provider_permanent = refl
category_visible ErrorCategory.network = refl
category_visible ErrorCategory.timeout = refl
category_visible ErrorCategory.protocol = refl
category_visible ErrorCategory.unsupported = refl
category_visible ErrorCategory.unknown = refl
