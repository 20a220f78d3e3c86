-- ===== src/Mongo/Templates/Visible.antt =====
-- Which aliases of src/healthassure_messaging/persistence/mongo.py can be read again.
use healthassure_messaging.Base.{
  ℕ, String, ◌≡◌, refl, Bool, true, false, not, ◌&&◌, ◌||◌, some, List, leb, All, arith,
  if◌then◌else◌,
}
use healthassure_messaging.Base.Text.{is_blank}
use healthassure_messaging.Enums.{is_image, is_sensitive}
use healthassure_messaging.Errors.{Error, ok, err, ◌>>◌, raise_if, require_text}
use healthassure_messaging.ServiceContracts.{
  TemplateComponentSpec, TemplateAlias, check_component_spec, check_alias,
}
use healthassure_messaging.Json.{Value, get}
use healthassure_messaging.Mongo.Documents.{
  record_call, as_document, doc_text, text_value, doc_int, int_value, doc_bool, bool_value,
  list_value, nat,
}
use healthassure_messaging.Mongo.Templates.{
  contains_type, contains_button, alias_version, alias_fields, stored_version, version_mismatch,
  build_alias, alias_from_document,
}
use healthassure_messaging.Mongo.Templates.Components.{components_again}
use healthassure_messaging.Mongo.Templates.Versions.{all_fit}
use healthassure_messaging.Mongo.Templates.Catalog.{new_alias}

zero_le : (n : ℕ) → leb 0 n ≡ true
zero_le n = ground arith

text_again : (s : String) → is_blank s ≡ false → text_value (some (Value.str s)) ≡ ok s
unfolding text_value
text_again s h = rw h

alias_texts :
    (a : TemplateAlias)
    → check_alias a ≡ ok a
    → (is_blank a.key ≡ false)
      × (is_blank a.provider_key ≡ false)
      × (is_blank a.template_name ≡ false)
      × (is_blank a.language_code ≡ false)
unfolding check_alias require_text
alias_texts a h = (ground arith, ground arith, ground arith, ground arith)

-- Whether the reader takes the version that the writer gives.
abbrev pub readable : List TemplateComponentSpec → Bool
readable cs =
    if contains_button cs || contains_type is_sensitive cs
    then contains_button cs && contains_type is_sensitive cs && not (contains_type is_image cs)
    else true

known_version :
    (cs : List TemplateComponentSpec)
    → stored_version (some (nat (alias_version cs))) ≡ ok (alias_version cs)
unfolding stored_version alias_version
known_version cs = ground arith

mismatch :
    (cs : List TemplateComponentSpec) → version_mismatch (alias_version cs) cs ≡ not (readable cs)
unfolding version_mismatch alias_version
mismatch cs = ground arith

last_test :
    (b : Bool) (a : TemplateAlias)
    → record_call (do raise_if (not b) Error.mongo_record; ok a)
      ≡ (if b then ok a else err Error.mongo_record)
unfolding record_call
last_test true a = refl
last_test false a = refl

-- An alias whose components its constructors accept, when saved for the first time, is read again as
-- it was, unless it has a button or a sensitive parameter without the other, or with an image: then
-- the reader raises MongoRecordError.
pub alias_from_document-new_alias :
    (alias : TemplateAlias) (actor : String) (updated_at : ℕ)
    → check_alias alias ≡ ok alias
    → All (λ c. check_component_spec c ≡ ok c) alias.components
    → is_blank actor ≡ false
    → alias_from_document (Value.obj (new_alias alias actor updated_at))
      ≡ (if readable alias.components then ok alias else err Error.mongo_record)
unfolding alias_from_document build_alias new_alias alias_fields as_document get list_value doc_bool
    bool_value doc_int int_value doc_text
alias_from_document-new_alias alias actor updated_at valid components visible =
    let t = alias_texts alias valid in
    rw
      (
        known_version alias.components,
        zero_le updated_at,
        text_again actor visible,
        components_again (alias_version alias.components) alias.components components
            (all_fit alias.components components),
        text_again alias.key t.0,
        text_again alias.provider_key t.1,
        text_again alias.template_name t.2,
        text_again alias.language_code t.3,
        valid,
        mismatch alias.components,
      )
      (last_test (readable alias.components) alias)
