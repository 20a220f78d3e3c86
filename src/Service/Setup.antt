-- ===== src/Service/Setup.antt =====
-- `MessagingService.__init__` of src/healthassure_messaging/service.py.
use healthassure_messaging.Base.{false, none, some, ◌==◌}
use healthassure_messaging.Errors.{
  Error, Result, ok, ◌>>◌, raise_if, require_text, require_optional_text,
}
use healthassure_messaging.Service.{MessagingService}

-- What the constructor rejects, beyond a wrong type.
unfoldable pub new_service : {E : Type 0} → MessagingService E → Result (MessagingService E)
new_service s = do
  require_text s.text_provider_key
  require_optional_text s.default_region
  raise_if (elim s.sensitive_fingerprint_key [ none ↦ false | some k ↦ k == "" ]) Error.value_error
  ok s
