-- ===== src/Webhooks.antt =====
-- src/healthassure_messaging/webhooks.py: delivery-status events.
pub mod Parse
pub mod Signature
pub mod Closed
pub mod Sound
pub mod Verify
use healthassure_messaging.Base.{ℕ, String, Bool, true, false, Option, none, some, List}
use healthassure_messaging.Enums.{DeliveryStatus}
use healthassure_messaging.Errors.{
  Error, Result, ok, err, ◌>>=◌, ◌>>◌, raise_if, require_text, require_optional_text,
}
use healthassure_messaging.Contracts.{out_of_range}

pub record DeliveryError : Type 0 where
  pub provider_code : String
  pub provider_subcode : Option ℕ

unfoldable pub check_delivery_error : DeliveryError → Result DeliveryError
check_delivery_error e = do
  require_text e.provider_code
  raise_if (out_of_range e.provider_subcode 0 2147483647) Error.value_error
  ok e

pub record DeliveryStatusEvent : Type 0 where
  pub provider_key : String
  pub provider_message_id : String
  pub status : DeliveryStatus
  pub provider_status : String
  pub occurred_at_epoch : ℕ
  pub recipient_id : String
  pub waba_id : String
  pub phone_number_id : String
  pub errors : List DeliveryError
  pub conversation_id : Option String
  pub conversation_origin_type : Option String
  pub pricing_model : Option String
  pub pricing_category : Option String
  pub billable : Option Bool

unfoldable pub check_event : DeliveryStatusEvent → Result DeliveryStatusEvent
check_event e = do
  require_text e.provider_key
  require_text e.provider_message_id
  require_text e.provider_status
  require_text e.recipient_id
  require_text e.waba_id
  require_text e.phone_number_id
  require_optional_text e.conversation_id
  require_optional_text e.conversation_origin_type
  require_optional_text e.pricing_model
  require_optional_text e.pricing_category
  ok e
