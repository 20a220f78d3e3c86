-- ===== src/Mongo/Templates/Deactivation.antt =====
-- Which aliases `deactivate` of src/healthassure_messaging/persistence/mongo.py can find.
use healthassure_messaging.Base.{ℕ, String, ◌≡◌, ◌≢◌, true, ◌||◌, some, arith}
use healthassure_messaging.Enums.{is_image, is_sensitive}
use healthassure_messaging.ServiceContracts.{TemplateAlias}
use healthassure_messaging.Json.{get}
use healthassure_messaging.Mongo.Documents.{nat}
use healthassure_messaging.Mongo.Templates.{
  contains_button, contains_type, alias_version, alias_fields,
}
use healthassure_messaging.Mongo.Templates.Catalog.{new_alias, deactivation_query}

version_ne_one : (n : ℕ) → n ≢ 1 → some (nat n) ≢ some (nat 1)
version_ne_one n d p = d (cc p)

-- The record of a saved alias with a button, a sensitive parameter or an image has another version of
-- the schema than the query of a deactivation asks for, whatever its key and revision.
pub new_alias-ne-deactivation_query :
    (alias : TemplateAlias) (actor : String) (updated_at : ℕ) (key : String) (revision : ℕ)
    → (contains_button alias.components
        || contains_type is_sensitive alias.components
        || contains_type is_image alias.components)
      ≡ true
    → get "record_schema_version" (new_alias alias actor updated_at)
      ≢ get "record_schema_version" (deactivation_query key revision)
unfolding new_alias alias_fields deactivation_query get alias_version
new_alias-ne-deactivation_query alias actor updated_at key revision h =
    version_ne_one _ (λ p. ground arith)
