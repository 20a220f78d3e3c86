-- ===== src/Service/Send/Once.antt =====
-- Both entry points call a provider at most once.
use healthassure_messaging.Base.{String, Option, none, some}
use healthassure_messaging.ServiceContracts.{MessageIntent}
use healthassure_messaging.Templates.{Parameters}
use healthassure_messaging.Provider.{World}
use healthassure_messaging.Service.{MessagingService}
use healthassure_messaging.Service.Effects.{Effect, Sends, sends_rules}
use healthassure_messaging.Service.Safety.{
  get_intent-Quiet, create_intent-Quiet, continue_intent-Sends,
}
use healthassure_messaging.Service.Send.{
  Call, Scope, send_new, send_found, send, send_template, send_text,
}

module _ {E : Type 0} (s : MessagingService E) where
  send_new-Sends : (c : Call) (f : String) → Sends (send_new s c f)
  unfolding send_new
  send_new-Sends c f = search (sends_rules, create_intent-Quiet, continue_intent-Sends) depth 12

  send_found-Sends : (c : Call) (f : String) (o : Option MessageIntent) → Sends (send_found s c f o)
  unfolding send_found
  send_found-Sends c f none = send_new-Sends c f
  send_found-Sends c f (some i) = search continue_intent-Sends

  send-Sends : (c : Call) → Sends (send s c)
  unfolding send
  send-Sends c = search (sends_rules, get_intent-Quiet, send_found-Sends) depth 12

  template-Sends :
      (recipient key : String) (ps : Parameters) (scope : Scope)
      → Sends (send_template s recipient key ps scope)
  unfolding send_template
  template-Sends recipient key ps scope = search (sends_rules, send-Sends) depth 12

  text-Sends :
      (recipient body purpose : String) (scope : Scope)
      → Sends (send_text s recipient body purpose scope)
  unfolding send_text
  text-Sends recipient body purpose scope = search (sends_rules, send-Sends) depth 12

  -- Whatever the repository, the policies, the providers and other processes do, a call of
  -- `send_template` calls a provider at most once. It has called none where its result is marked as
  -- a replay, nor where it raises anything but PostDispatchPersistenceError or ValueError.
  pub send_template-Effect :
      (recipient key : String) (ps : Parameters) (scope : Scope) (w : World E)
      → let (r, w') = send_template s recipient key ps scope w in Effect w.sent r w'.sent
  send_template-Effect recipient key ps scope w = (template-Sends recipient key ps scope).at w

  -- The same holds of `send_text`: whatever the outside does, it calls a provider at most once, and
  -- none where its result is marked as a replay or where it raises anything but
  -- PostDispatchPersistenceError or ValueError.
  pub send_text-Effect :
      (recipient body purpose : String) (scope : Scope) (w : World E)
      → let (r, w') = send_text s recipient body purpose scope w in Effect w.sent r w'.sent
  send_text-Effect recipient body purpose scope w = (text-Sends recipient body purpose scope).at w
