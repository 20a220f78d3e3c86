-- ===== src/Enums.antt =====
-- src/healthassure_messaging/enums.py and _enum.py: the string enumerations, with the text of each
-- member and the member of each text.
pub mod RoundTrip
use healthassure_messaging.Base.{
  String, Bool, true, false, Option, none, some, List, [], ◌∷◌, ◌==◌, if◌then◌else◌,
}

pub data SendDisposition : Type 0 where
  accepted rejected unknown : SendDisposition

pub data ErrorCategory : Type 0 where
  validation authentication authorization rate_limit : ErrorCategory
  provider_temporary provider_permanent network timeout : ErrorCategory
  protocol unsupported unknown : ErrorCategory

pub data TemplateComponentType : Type 0 where
  header body button : TemplateComponentType

pub data TemplateParameterType : Type 0 where
  text image sensitive_text : TemplateParameterType

pub data DeliveryStatus : Type 0 where
  sent delivered read failed deleted unknown : DeliveryStatus

pub data IntentState : Type 0 where
  pending dispatching accepted rejected unknown : IntentState

-- `member.value`, and the lookup `Enum(value)`, which raises where this is `none`.
unfoldable pub component_type_value : TemplateComponentType → String
component_type_value TemplateComponentType.header = "header"
component_type_value TemplateComponentType.body = "body"
component_type_value TemplateComponentType.button = "button"

unfoldable pub component_type_of : String → Option TemplateComponentType
component_type_of v =
    if v == "header"
    then some TemplateComponentType.header
    else if v == "body"
    then some TemplateComponentType.body
    else if v == "button"
    then some TemplateComponentType.button
    else none

-- `is` between members.
unfoldable pub is_button : TemplateComponentType → Bool
is_button TemplateComponentType.button = true
is_button _ = false

unfoldable pub is_header : TemplateComponentType → Bool
is_header TemplateComponentType.header = true
is_header _ = false

unfoldable pub is_body : TemplateComponentType → Bool
is_body TemplateComponentType.body = true
is_body _ = false

abbrev pub is_image : TemplateParameterType → Bool
is_image TemplateParameterType.image = true
is_image _ = false

abbrev pub is_sensitive : TemplateParameterType → Bool
is_sensitive TemplateParameterType.sensitive_text = true
is_sensitive _ = false

-- The table from a disposition to the terminal state of its intent.
abbrev pub terminal_state : SendDisposition → IntentState
terminal_state SendDisposition.accepted = IntentState.accepted
terminal_state SendDisposition.rejected = IntentState.rejected
terminal_state SendDisposition.unknown = IntentState.unknown

abbrev pub is_terminal : IntentState → Bool
is_terminal IntentState.pending = false
is_terminal IntentState.dispatching = false
is_terminal _ = true

abbrev pub is_pending : IntentState → Bool
is_pending IntentState.pending = true
is_pending _ = false

abbrev pub state_eq : IntentState → IntentState → Bool
state_eq IntentState.pending IntentState.pending = true
state_eq IntentState.dispatching IntentState.dispatching = true
state_eq IntentState.accepted IntentState.accepted = true
state_eq IntentState.rejected IntentState.rejected = true
state_eq IntentState.unknown IntentState.unknown = true
state_eq _ _ = false

-- `Enum(value)`: the first member of that value.
unfoldable pub member_of : {A : Type 0} → (A → String) → List A → String → Option A
member_of value [] v = none
member_of value (a ∷ members) v =
    let rest = member_of value members v in if v == value a then some a else rest

unfoldable pub disposition_value : SendDisposition → String
disposition_value SendDisposition.accepted = "accepted"
disposition_value SendDisposition.rejected = "rejected"
disposition_value SendDisposition.unknown = "unknown"

unfoldable pub disposition_of : String → Option SendDisposition
unfolding member_of disposition_value
disposition_of =
    member_of disposition_value
      (SendDisposition.accepted ∷ SendDisposition.rejected ∷ SendDisposition.unknown ∷ [])

unfoldable pub state_value : IntentState → String
state_value IntentState.pending = "pending"
state_value IntentState.dispatching = "dispatching"
state_value IntentState.accepted = "accepted"
state_value IntentState.rejected = "rejected"
state_value IntentState.unknown = "unknown"

unfoldable pub state_of : String → Option IntentState
unfolding member_of state_value
state_of = member_of state_value (
    IntentState.pending ∷ IntentState.dispatching ∷ IntentState.accepted ∷ IntentState.rejected
    ∷ IntentState.unknown ∷ [])

unfoldable pub parameter_type_value : TemplateParameterType → String
parameter_type_value TemplateParameterType.text = "text"
parameter_type_value TemplateParameterType.image = "image"
parameter_type_value TemplateParameterType.sensitive_text = "sensitive_text"

unfoldable pub parameter_type_of : String → Option TemplateParameterType
unfolding member_of parameter_type_value
parameter_type_of = member_of parameter_type_value (
    TemplateParameterType.text ∷ TemplateParameterType.image ∷ TemplateParameterType.sensitive_text
    ∷ [])

unfoldable pub category_value : ErrorCategory → String
category_value ErrorCategory.validation = "validation"
category_value ErrorCategory.authentication = "authentication"
category_value ErrorCategory.authorization = "authorization"
category_value ErrorCategory.rate_limit = "rate_limit"
category_value ErrorCategory.provider_temporary = "provider_temporary"
category_value ErrorCategory.provider_permanent = "provider_permanent"
category_value ErrorCategory.network = "network"
category_value ErrorCategory.timeout = "timeout"
category_value ErrorCategory.protocol = "protocol"
category_value ErrorCategory.unsupported = "unsupported"
category_value ErrorCategory.unknown = "unknown"

unfoldable pub category_of : String → Option ErrorCategory
unfolding member_of category_value
category_of = member_of category_value (
    ErrorCategory.validation ∷ ErrorCategory.authentication ∷ ErrorCategory.authorization
    ∷ ErrorCategory.rate_limit ∷ ErrorCategory.provider_temporary ∷ ErrorCategory.provider_permanent
    ∷ ErrorCategory.network ∷ ErrorCategory.timeout ∷ ErrorCategory.protocol
    ∷ ErrorCategory.unsupported ∷ ErrorCategory.unknown ∷ [])
