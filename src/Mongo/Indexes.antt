-- ===== src/Mongo/Indexes.antt =====
-- `MongoMessagingPersistence` of src/healthassure_messaging/persistence/mongo.py: the handles of its
-- four collections, and their indexes. `H` stands for a handle of pymongo.
pub mod Ensured
use Prim.Native.String.{◌++◌}
use healthassure_messaging.Base.{
  ℕ, String, Bool, true, false, not, ◌&&◌, ◌||◌, Option, none, some, List, [], ◌∷◌, leb, nat_eq,
  ◌==◌, if◌then◌else◌,
}
use healthassure_messaging.Base.Text.{every, is_digit}
use healthassure_messaging.Errors.{Error, Result, ok, err, raise_if, require_text}
use healthassure_messaging.Mongo.{Answer, Action, done, continue_with, mongo_call, ◌>>=◌, ◌>>◌}

-- The direction of every key is ASCENDING.
pub record MongoIndexDefinition : Type 0 where
  pub collection_name : String
  pub name : String
  pub keys : List String
  pub unique : Bool

-- One value for each collection: the two dicts that the class keeps.
pub record Collections (A : Type 0) : Type 0 where
  pub intents : A
  pub recipient_policy : A
  pub sessions : A
  pub templates : A

-- The calls on the database and on a handle.
pub record Database (E H : Type 0) : Type 0 where
  pub get_collection : String → E → Answer H × E
  pub create_index : H → MongoIndexDefinition → E → Answer String × E

-- `[A-Za-z0-9_]+` on a whole text that is not blank.
unfoldable pub prefix_character : ℕ → Bool
prefix_character c = (leb 65 c && leb c 90) || (leb 97 c && leb c 122) || is_digit c || nat_eq c 95

unfoldable pub collection_names : String → Collections String
collection_names prefix = record {
  intents = prefix ++ "_intents";
  recipient_policy = prefix ++ "_recipient_policies";
  sessions = prefix ++ "_sessions";
  templates = prefix ++ "_template_aliases";
}

pub record MongoMessagingPersistence (H : Type 0) : Type 0 where
  pub provider_key : String
  pub phone_number_id : String
  pub names : Collections String
  pub handles : Collections H

abbrev pub index_on : Bool → String → String → List String → MongoIndexDefinition
index_on unique collection suffix keys = record {
  collection_name = collection;
  name = collection ++ suffix;
  keys = keys;
  unique = unique;
}

unfoldable pub index_plan : Collections String → List MongoIndexDefinition
index_plan names =
    index_on true names.intents "_idempotency_uq" ("source_flow" ∷ "idempotency_key" ∷ [])
    ∷ index_on true names.intents "_intent_id_uq" ("intent_id" ∷ [])
    ∷ index_on true names.intents "_correlation_id_uq" ("correlation_id" ∷ [])
    ∷ index_on false names.intents "_recovery" ("state" ∷ "dispatch_started_at_epoch" ∷ [])
    ∷ index_on true names.recipient_policy "_recipient_uq" ("recipient" ∷ [])
    ∷ index_on true names.sessions "_scope_uq"
        ("provider_key" ∷ "phone_number_id" ∷ "recipient" ∷ [])
    ∷ index_on false names.sessions "_expiry"
        ("provider_key" ∷ "phone_number_id" ∷ "expires_at_epoch" ∷ [])
    ∷ index_on true names.templates "_key_uq" ("template_key" ∷ [])
    ∷ []

-- The first handle whose collection has the name; `next` raises StopIteration where there is none.
unfoldable pub handle_of : {H : Type 0} → Collections String → Collections H → String → Result H
handle_of names handles name =
    if names.intents == name
    then ok handles.intents
    else if names.recipient_policy == name
    then ok handles.recipient_policy
    else if names.sessions == name
    then ok handles.sessions
    else if names.templates == name
    then ok handles.templates
    else err Error.stop_iteration

module _ {E H : Type 0} (database : Database E H) where
  -- The calls of `get_collection`, in the order of the names.
  unfoldable pub collection_handles : Collections String → Action E (Collections H)
  collection_handles names = do
    intents ← mongo_call (database.get_collection names.intents)
    recipient_policy ← mongo_call (database.get_collection names.recipient_policy)
    sessions ← mongo_call (database.get_collection names.sessions)
    templates ← mongo_call (database.get_collection names.templates)
    let handles : Collections H = record {
      intents = intents;
      recipient_policy = recipient_policy;
      sessions = sessions;
      templates = templates;
    }
    done (ok handles)

  -- `__init__`.
  unfoldable pub new_persistence : String → String → String → Action E (MongoMessagingPersistence H)
  unfolding prefix_character collection_names collection_handles
  new_persistence provider_key phone_number_id collection_prefix = do
    provider ← done (require_text provider_key)
    phone ← done (require_text phone_number_id)
    prefix ← done (require_text collection_prefix)
    done (raise_if (not (every prefix_character prefix)) Error.value_error)
    handles ← collection_handles (collection_names prefix)
    let p : MongoMessagingPersistence H = record {
      provider_key = provider;
      phone_number_id = phone;
      names = collection_names prefix;
      handles = handles;
    }
    done (ok p)

  -- One round of the loop of `ensure_indexes`.
  unfoldable pub ensure_index :
      Collections String → Collections H → MongoIndexDefinition → Action E String
  ensure_index names handles definition = do
    handle ← done (handle_of names handles definition.collection_name)
    name ← mongo_call (database.create_index handle definition)
    done (raise_if (not (name == definition.name)) Error.mongo_persistence)
    done (ok name)

  unfoldable pub ensure_each :
      Collections String → Collections H → List MongoIndexDefinition → Action E (List String)
  unfolding ensure_index
  ensure_each names handles [] = done (ok [])
  ensure_each names handles (d ∷ definitions) = do
    name ← ensure_index names handles d
    ensured ← ensure_each names handles definitions
    done (ok (name ∷ ensured))

  unfoldable pub ensure_indexes : MongoMessagingPersistence H → Action E (List String)
  unfolding ensure_each index_plan
  ensure_indexes p = ensure_each p.names p.handles (index_plan p.names)
