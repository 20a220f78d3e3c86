-- ===== src/Mongo/Templates/Catalog.antt =====
-- `MongoTemplateCatalog` of src/healthassure_messaging/persistence/mongo.py.
use healthassure_messaging.Base.{ℕ, ◌+◌, String, Bool, true, false, Option, none, some}
use healthassure_messaging.Base.Int.{ℤ}
use healthassure_messaging.Errors.{Error, Result, ok, err, require_text}
use healthassure_messaging.ServiceContracts.{TemplateAlias}
use healthassure_messaging.Json.{Value, Object, nil, cons, end, field}
use healthassure_messaging.Mongo.{Answer, Collection, Action, done, mongo_call, ◌>>=◌}
use healthassure_messaging.Mongo.Documents.{
  require_epoch, require_revision, nat, mongo_record_schema_version,
}
use healthassure_messaging.Mongo.Templates.{
  image_template_alias_schema_version, template_alias_schema_version, alias_fields,
  alias_from_document,
}

unfoldable pub active_query : String → Object
active_query key = field "template_key" (Value.str key) (field "active" (Value.bool true) end)

-- What every write sets besides the fields of an alias.
abbrev pub revision_fields : Bool → ℕ → String → ℕ → Object
revision_fields active revision actor updated_at = field "active" (Value.bool active) (
    field "revision" (nat revision)
      (field "actor_id" (Value.str actor) (field "updated_at_epoch" (nat updated_at) end)))

-- `save`: the document of a new alias, and the query and the update for a later revision.
unfoldable pub new_alias : TemplateAlias → String → ℕ → Object
unfolding alias_fields
new_alias alias actor updated_at = alias_fields alias (revision_fields true 1 actor updated_at)

unfoldable pub revision_query : String → ℕ → Object
revision_query key revision = field "template_key" (Value.str key) (
    field "record_schema_version"
      (Value.obj (
        field "$in"
          (Value.arr (
            cons (nat mongo_record_schema_version) (
              cons (nat image_template_alias_schema_version)
                (cons (nat template_alias_schema_version) nil))))
          end))
      (field "revision" (nat revision) end))

unfoldable pub save_update : TemplateAlias → ℕ → String → ℕ → Object
unfolding alias_fields
save_update alias revision actor updated_at =
    field "$set" (Value.obj (alias_fields alias (revision_fields true revision actor updated_at)))
      end

-- `deactivate`.
unfoldable pub deactivation_query : String → ℕ → Object
deactivation_query key revision = field "template_key" (Value.str key) (
    field "record_schema_version" (nat mongo_record_schema_version)
      (field "revision" (nat revision) (field "active" (Value.bool true) end)))

unfoldable pub deactivation_update : ℕ → String → ℕ → Object
deactivation_update revision actor updated_at =
    field "$set" (Value.obj (revision_fields false revision actor updated_at)) end

unfoldable pub optional_alias : Option Value → Result (Option TemplateAlias)
optional_alias none = ok none
optional_alias (some v) = elim (alias_from_document v) [ ok a ↦ ok (some a) | err e ↦ err e ]

-- How an update of a revision ends.
unfoldable pub revised : ℕ → Option Value → Result ℕ
revised new_revision none = err Error.mongo_conflict
revised new_revision (some v) = elim (alias_from_document v) [
  | ok a ↦ ok new_revision
  | err e ↦ err e
]

-- How the insertion of a new alias ends.
unfoldable pub inserted : Answer (Unit {0}) → Result ℕ
inserted (Answer.answer u) = ok 1
inserted Answer.duplicate_key = err Error.mongo_conflict
inserted Answer.failed = err Error.mongo_persistence

module _ {E : Type 0} (collection : Collection E) where
  unfoldable pub get : String → Action E (Option TemplateAlias)
  unfolding optional_alias active_query
  get template_key = do
    key ← done (require_text template_key)
    document ← mongo_call (collection.find_one (active_query key))
    done (optional_alias document)

  unfoldable pub insert_alias : Object → Action E ℕ
  unfolding inserted
  insert_alias document e = let (a, e') = collection.insert_one document e in (inserted a, e')

  unfoldable pub revise_alias : TemplateAlias → ℤ → String → ℕ → Action E ℕ
  unfolding revised revision_query save_update
  revise_alias alias expected_revision actor updated_at = do
    revision ← done (require_revision expected_revision)
    updated ← mongo_call (
        collection.update (revision_query alias.key revision)
          (save_update alias (revision + 1) actor updated_at))
    done (revised (revision + 1) updated)

  -- `save`, for a new alias and for a later revision.
  abbrev pub save_revision : TemplateAlias → Option ℤ → String → ℕ → Action E ℕ
  unfolding insert_alias revise_alias
  save_revision alias none actor updated_at = insert_alias (new_alias alias actor updated_at)
  save_revision alias (some expected_revision) actor updated_at =
      revise_alias alias expected_revision actor updated_at

  unfoldable pub save : TemplateAlias → Option ℤ → String → ℤ → Action E ℕ
  unfolding save_revision
  save alias expected_revision actor_id updated_at_epoch = do
    actor ← done (require_text actor_id)
    updated_at ← done (require_epoch updated_at_epoch)
    save_revision alias expected_revision actor updated_at

  unfoldable pub deactivate : String → ℤ → String → ℤ → Action E ℕ
  unfolding revised deactivation_query deactivation_update
  deactivate template_key expected_revision actor_id updated_at_epoch = do
    key ← done (require_text template_key)
    revision ← done (require_revision expected_revision)
    actor ← done (require_text actor_id)
    updated_at ← done (require_epoch updated_at_epoch)
    updated ← mongo_call (
        collection.update (deactivation_query key revision)
          (deactivation_update (revision + 1) actor updated_at))
    done (revised (revision + 1) updated)
