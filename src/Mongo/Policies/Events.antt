-- ===== src/Mongo/Policies/Events.antt =====
-- The events of a recipient in src/healthassure_messaging/persistence/mongo.py.
use healthassure_messaging.Base.{
  ℕ, String, ◌≡◌, refl, Bool, true, false, Option, none, some, List, [], ◌∷◌, ◌++◌, elem, leb,
  arith,
}
use healthassure_messaging.Base.Int.{ℤ, pos, negsuc}
use healthassure_messaging.Base.Text.{is_blank, is_space}
use healthassure_messaging.Errors.{ok, require_text}
use healthassure_messaging.Errors.Returns.{Returns, Returns-ok, Returns-run}
use healthassure_messaging.ServiceContracts.{RecipientEligibility}
use healthassure_messaging.Json.{Value, Array, Object, nil, cons, get}
use healthassure_messaging.Mongo.Documents.{
  require_epoch, as_document, doc_text, text_value, doc_int, int_value,
}
use healthassure_messaging.Mongo.Policies.{
  PolicyEvidence, event_document, policy_event, policy_operations, replay, read_event, read_events,
}
use healthassure_messaging.Mongo.Policies.Fresh.{Fresh, Fresh-head, Fresh-next}
use healthassure_messaging.Mongo.Updates.{snoc}

-- The four operations, each with the flags that its update sets.
pub data Operation : String → Option Bool → Option Bool → Type 0 where
  grant : Operation "grant_consent" (some true) none
  revoke : Operation "revoke_consent" (some false) none
  suppress : Operation "apply_suppression" none (some true)
  clear : Operation "clear_suppression" none (some false)

abbrev pub epoch_of : ℤ → ℕ
epoch_of (pos n) = n
epoch_of (negsuc n) = 0

pub record Written (ev : PolicyEvidence) : Type 0 where
  id_visible : is_blank ev.event_id ≡ false
  actor_visible : is_blank ev.actor_id ≡ false
  source_visible : is_blank ev.source ≡ false
  reference_visible : is_blank ev.evidence_reference ≡ false

pub event-Written :
    (operation : String) (ev : PolicyEvidence) (event : Object)
    → policy_event operation ev ≡ ok event
    → Written ev
unfolding policy_event require_text
event-Written operation ev event h = ground arith

pub event_made :
    (operation : String) (ev : PolicyEvidence) (event : Object)
    → policy_event operation ev ≡ ok event
    → event ≡ event_document operation ev (epoch_of ev.occurred_at_epoch)
unfolding policy_event require_text require_epoch
event_made operation ev event h = ground arith

Operation-visible :
    {operation : String} {c s : Option Bool} → Operation operation c s → is_blank operation ≡ false
unfolding is_blank is_space
Operation-visible grant = refl
Operation-visible _ = refl

Operation-known :
    {operation : String} {c s : Option Bool}
    → Operation operation c s
    → elem operation policy_operations ≡ true
unfolding policy_operations
Operation-known grant = refl
Operation-known _ = refl

leb_zero : (n : ℕ) → leb 0 n ≡ true
leb_zero n = ground arith

-- The event of an operation is read as such.
pub read-Written :
    (ids : List String) (operation : String) (c s : Option Bool) (ev : PolicyEvidence) (n : ℕ)
    → Operation operation c s
    → Written ev
    → elem ev.event_id ids ≡ false
    → read_event ids (event_document operation ev n) ≡ ok (ev.event_id, operation)
unfolding read_event event_document doc_text text_value doc_int int_value get
read-Written ids operation c s ev n o w new = rw (
  w.id_visible,
  new,
  Operation-visible o,
  Operation-known o,
  w.actor_visible,
  w.source_visible,
  w.reference_visible,
  leb_zero n,
)

read_identifier :
    (ids : List String) (d : Object)
    → Returns (λ r. doc_text d "event_id" ≡ ok r.0) (read_event ids d)
unfolding read_event
read_identifier ids d = record { at = λ r h. ground arith }

module _ (id operation : String) (event : Object)
    (reads : (seen : List String)
      → elem id seen ≡ false
      → read_event seen event ≡ ok (id, operation)) where
  -- A new event at the end of the history.
  pub snoc-Returns :
      (ids : List String) (start : RecipientEligibility) (raw : Array)
      → elem id ids ≡ false
      → Returns
          (λ r.
            Fresh id r.0
            → read_events ids start (snoc raw (Value.obj event))
              ≡ ok (r.0 ++ (event ∷ []), replay operation r.1))
          (read_events ids start raw)
  unfolding read_events as_document
  snoc-Returns ids start nil n = Returns-ok (λ f. rw (reads ids n))
  snoc-Returns ids start (cons x raw) n = Returns-run (as_document x) (λ d p.
      Returns-run (read_event ids d) (λ r q.
        Returns-run (read_events (r.0 ∷ ids) (replay r.1 start) raw) (λ rs t. Returns-ok (λ f.
          let (other, later) = Fresh-head id d rs.0 f r.0 ((read_identifier ids d).at r q) in
          rw (
            p,
            q,
            (snoc-Returns (r.0 ∷ ids) (replay r.1 start) raw (Fresh-next id r.0 ids other n)).at rs
                t later,
          )))))
