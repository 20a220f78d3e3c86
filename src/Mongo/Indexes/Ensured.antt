-- ===== src/Mongo/Indexes/Ensured.antt =====
-- What `ensure_indexes` of src/healthassure_messaging/persistence/mongo.py ensures.
use Prim.Native.String.{◌++◌}
use healthassure_messaging.Base.{
  String, ◌≡◌, ◌≢◌, refl, Bool, true, false, List, [], ◌∷◌, map, eq_iff, if◌then◌else◌, ◌==◌,
  eq_refl, All, inl, inr, not, Bool-cases,
}
use healthassure_messaging.Base.Append.{append_ne}
use healthassure_messaging.Errors.{Error, Result, ok, err, raise_if}
use healthassure_messaging.Mongo.{Answer, answered, continue_with}
use healthassure_messaging.Mongo.Indexes.{
  MongoIndexDefinition, Collections, Database, MongoMessagingPersistence, index_plan, handle_of,
  ensure_index, ensure_each, ensure_indexes, collection_names,
}

-- An ending of `ensure_indexes`: the names wanted, or MongoPersistenceError.
pub data Ensured (wanted : List String) : Result (List String) → Type 0 where
  all_created : Ensured wanted (ok wanted)
  refused_by_mongo : Ensured wanted (err Error.mongo_persistence)

module _ {E H : Type 0} (database : Database E H) (names : Collections String)
    (handles : Collections H) where
  abbrev Planned : MongoIndexDefinition → Type 0
  Planned d = (h : H) × (handle_of names handles d.collection_name ≡ ok h)

  data OneEnsured (d : MongoIndexDefinition) : Result String × E → Type 0 where
    created : (e : E) → OneEnsured d (ok d.name, e)
    failed : (e : E) → OneEnsured d (err Error.mongo_persistence, e)

  -- How the call that creates an index ends.
  created_index :
      (d : MongoIndexDefinition) (a : Answer String) (e : E)
      → OneEnsured d (
          continue_with (answered a) e λ name e'.
            continue_with
              (raise_if (not (name == d.name)) Error.mongo_persistence)
              e'
              λ _ e''. (ok name, e''))
  created_index d (Answer.answer s) e = elim (Bool-cases (s == d.name)) [
    | inl same ↦ rw (same, (eq_iff s d.name).0 same) (created e)
    | inr other ↦ rw other (failed e)
  ]
  created_index d Answer.duplicate_key e = failed e
  created_index d Answer.failed e = failed e

  one_ensured :
      (d : MongoIndexDefinition) (h : H) (e : E)
      → handle_of names handles d.collection_name ≡ ok h
      → OneEnsured d (ensure_index database names handles d e)
  unfolding ensure_index
  one_ensured d h e found =
      rw found (created_index d (database.create_index h d e).0 (database.create_index h d e).1)

  abbrev AllPlanned : List MongoIndexDefinition → Type 0
  AllPlanned ds = All Planned ds

  joined :
      {ns : List String} {n : String} {q : Result (List String)} (e : E)
      → Ensured ns q
      → Ensured (n ∷ ns) (continue_with q e λ ensured e'. (ok (n ∷ ensured), e')).0
  joined e all_created = all_created
  joined e refused_by_mongo = refused_by_mongo

  -- The rest of the loop after one index.
  after_one :
      (d : MongoIndexDefinition) (ds : List MongoIndexDefinition) (r : Result String × E)
      → OneEnsured d r
      → ((e : E) → Ensured (map (λ x. x.name) ds) (ensure_each database names handles ds e).0)
      → Ensured
          (map (λ x. x.name) (d ∷ ds))
          (continue_with r.0 r.1 λ name e.
            continue_with
              (ensure_each database names handles ds e).0
              (ensure_each database names handles ds e).1
              λ ensured e'. (ok (name ∷ ensured), e')).0
  after_one d ds r (created e) rest = joined (ensure_each database names handles ds e).1 (rest e)
  after_one d ds r (failed e) rest = refused_by_mongo

  each_ensured :
      (ds : List MongoIndexDefinition) (e : E)
      → AllPlanned ds
      → Ensured (map (λ d. d.name) ds) (ensure_each database names handles ds e).0
  unfolding ensure_each
  each_ensured [] e planned = all_created
  each_ensured (d ∷ ds) e ((h, found), planned) =
      after_one d ds (ensure_index database names handles d e) (one_ensured d h e found)
        (λ e'. each_ensured ds e' planned)

  abbrev Found : Result H → Type 0
  Found m = (h : H) × (m ≡ ok h)

  Found-or : (b : Bool) (h : H) (m : Result H) → Found m → Found (if b then ok h else m)
  Found-or true h m f = (h, refl)
  Found-or false h m f = f

  Found-here : (b : Bool) (h : H) (m : Result H) → b ≡ true → Found (if b then ok h else m)
  Found-here true h m t = (h, refl)
  Found-here false h m t = cc

  -- Each of the four names has a handle.
  plan-AllPlanned : AllPlanned (index_plan names)
  unfolding handle_of index_plan
  plan-AllPlanned =
      let i : Found (handle_of names handles names.intents) =
        search (Found-here, Found-or, eq_refl) in
      let r : Found (handle_of names handles names.recipient_policy) =
        search (Found-here, Found-or, eq_refl) in
      let s : Found (handle_of names handles names.sessions) =
        search (Found-here, Found-or, eq_refl) in
      let t : Found (handle_of names handles names.templates) =
        search (Found-here, Found-or, eq_refl) in
      (i, (i, (i, (i, (r, (s, (s, (t, tt))))))))

-- `ensure_indexes` returns the names of the plan in its order, or raises MongoPersistenceError: for
-- every index of the plan it finds a handle.
pub ensure_indexes-Ensured :
    {E H : Type 0} (database : Database E H) (p : MongoMessagingPersistence H) (e : E)
    → Ensured (map (λ d. d.name) (index_plan p.names)) (ensure_indexes database p e).0
unfolding ensure_indexes
ensure_indexes-Ensured database p e =
    each_ensured database p.names p.handles (index_plan p.names) e
      (plan-AllPlanned database p.names p.handles)

suffix_ne : (t u : String) → (t == u) ≡ false → t ≢ u
suffix_ne t u f p = absurd (cc ((eq_iff t u).1 p))

-- The names of the four collections are different whatever the prefix: the lookup by a name gives the
-- handle of that collection.
pub handle_of-collection_names :
    {H : Type 0} (prefix : String) (handles : Collections H)
    → let names = collection_names prefix in
      (handle_of names handles names.intents ≡ ok handles.intents)
      × (handle_of names handles names.recipient_policy ≡ ok handles.recipient_policy)
      × (handle_of names handles names.sessions ≡ ok handles.sessions)
      × (handle_of names handles names.templates ≡ ok handles.templates)
unfolding handle_of collection_names
handle_of-collection_names prefix handles =
    let ne = λ (t u : String) (f : (t == u) ≡ false). append_ne prefix t u (suffix_ne t u f) in
    (
      rw (eq_refl (prefix ++ "_intents")),
      rw (ne "_intents" "_recipient_policies" refl, eq_refl (prefix ++ "_recipient_policies")),
      rw (
        ne "_intents" "_sessions" refl,
        ne "_recipient_policies" "_sessions" refl,
        eq_refl (prefix ++ "_sessions"),
      ),
      rw (
        ne "_intents" "_template_aliases" refl,
        ne "_recipient_policies" "_template_aliases" refl,
        ne "_sessions" "_template_aliases" refl,
        eq_refl (prefix ++ "_template_aliases"),
      ),
    )
