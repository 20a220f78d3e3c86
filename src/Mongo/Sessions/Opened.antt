-- ===== src/Mongo/Sessions/Opened.antt =====
-- The record after the opening of a session in src/healthassure_messaging/persistence/mongo.py.
use healthassure_messaging.Base.{
  ℕ, String, ◌≡◌, refl, true, false, none, List, [], ◌∷◌, ◌++◌, elem, leb, nat_eq, eq_refl, arith,
}
use healthassure_messaging.Base.Text.{is_blank}
use healthassure_messaging.Errors.{Error, ok}
use healthassure_messaging.Errors.Returns.{Returns, Returns-ok, Returns-run, Returns-raise_if}
use healthassure_messaging.Json.{Value, Array, Object, nil, cons, get, has}
use healthassure_messaging.Mongo.Documents.{
  as_document, text_value, doc_text, doc_int, int_value, validate_schema,
}
use healthassure_messaging.Mongo.Updates.{Applied, snoc}
use healthassure_messaging.Mongo.Policies.{find_event}
use healthassure_messaging.Mongo.Policies.Fresh.{Fresh, Fresh-head, Fresh-next}
use healthassure_messaging.Mongo.Sessions.{
  Session, SessionScope, inactive, texts_eq, check_history, purpose_keys, read_opening,
  read_openings, session_record_from_document, session_event,
}
use healthassure_messaging.Mongo.Sessions.Readable.{session_reads, read-IsSession, kept_purposes}
use healthassure_messaging.Mongo.Sessions.Policy.{opening_update}

-- What the arguments of an opening are after their tests.
pub record IsOpening (event_id : String) (s : Session) : Type 0 where
  pub visible : is_blank event_id ≡ false
  pub given : List String
  pub purposes_valid : purpose_keys given ≡ ok s.purposes
  pub in_order : leb s.expires_at s.opened_at ≡ false

zero_le : (n : ℕ) → leb 0 n ≡ true
zero_le n = ground arith

same_number : (n : ℕ) → nat_eq n n ≡ true
same_number n = ground arith

-- The event of an opening is read as such.
opening_read :
    (id : String) (s : Session) → IsOpening id s → read_opening (session_event id s) ≡ ok s
unfolding read_opening session_event get doc_int int_value
opening_read id s o = rw (
  kept_purposes false o.given s.purposes o.purposes_valid,
  zero_le s.opened_at,
  zero_le s.expires_at,
  o.in_order,
)

identifier_read :
    (id : String) (s : Session) → IsOpening id s → doc_text (session_event id s) "event_id" ≡ ok id
unfolding session_event get doc_text text_value
identifier_read id s o = rw (o.visible)

-- A new event at the end of the openings.
snoc-Returns :
    (id : String) (s : Session) (ids : List String) (start : Session) (raw : Array)
    → IsOpening id s
    → elem id ids ≡ false
    → Returns
        (λ r.
          Fresh id r.0
          → read_openings ids start (snoc raw (Value.obj (session_event id s)))
            ≡ ok (r.0 ++ (session_event id s ∷ []), s))
        (read_openings ids start raw)
unfolding read_openings as_document
snoc-Returns id s ids start nil o n =
    Returns-ok (λ f. rw (identifier_read id s o, n, opening_read id s o))
snoc-Returns id s ids start (cons x raw) o n = Returns-run (as_document x) (λ d p.
    Returns-run (doc_text d "event_id") (λ i q.
      Returns-raise_if (elem i ids) Error.value_error (λ new. Returns-run (read_opening d) (λ t h.
        Returns-run (read_openings (i ∷ ids) t raw) (λ rs k. Returns-ok (λ f.
          let (other, later) = Fresh-head id d rs.0 f i q in
          rw (
            p,
            q,
            new,
            h,
            (snoc-Returns id s (i ∷ ids) t raw o (Fresh-next id i ids other n)).at rs k later,
          )))))))

texts_eq_refl : (ts : List String) → texts_eq ts ts ≡ true
texts_eq_refl [] = refl
texts_eq_refl (t ∷ ts) = rw (eq_refl t, texts_eq_refl ts)

-- The last session is the stored one.
history_checked :
    (events : List Object) (e : Object) (s : Session)
    → check_history (events ++ (e ∷ [])) s s ≡ ok tt
history_checked [] e s =
    rw (texts_eq_refl s.purposes, same_number s.opened_at, same_number s.expires_at)
history_checked (d ∷ events) e s =
    rw (texts_eq_refl s.purposes, same_number s.opened_at, same_number s.expires_at)

-- The opening of a session on any record that can be read, with an identifier that no event has, leaves
-- one that can be read: it has the purposes and the times of the opening, and its event at the end.
pub session_record_from_document-opening_update :
    (id : String) (s old : Session) (scope : SessionScope) (events : List Object)
    (before after : Object)
    → IsOpening id s
    → find_event id events ≡ none
    → Applied (opening_update s (session_event id s)) before after
    → session_record_from_document (Value.obj before) scope ≡ ok (old, events)
    → session_record_from_document (Value.obj after) scope
      ≡ ok (s, events ++ (session_event id s ∷ []))
unfolding opening_update get has doc_text doc_int int_value validate_schema
session_record_from_document-opening_update id s old scope events before after o fresh a h =
    let p = (read-IsSession before scope).at (old, events) h in
    session_reads after scope s (events ++ (session_event id s ∷ [])) (record {
      schema = rw (a.keeps "record_schema_version" refl) (p.schema);
      provider = rw (a.keeps "provider_key" refl) (p.provider);
      phone = rw (a.keeps "phone_number_id" refl) (p.phone);
      stored_recipient = p.stored_recipient;
      recipient_text = rw (a.keeps "recipient" refl) (p.recipient_text);
      recipient_valid = p.recipient_valid;
      purposes =
          rw (a.sets "allowed_purpose_keys" _ refl)
            (kept_purposes true o.given s.purposes o.purposes_valid);
      opened = rw (a.sets "opened_at_epoch" _ refl, zero_le s.opened_at);
      expires = rw (a.sets "expires_at_epoch" _ refl, zero_le s.expires_at);
      raw = snoc p.raw (Value.obj (session_event id s));
      stored = a.pushes "events" _ p.raw refl p.stored;
      final = s;
      history = (snoc-Returns id s [] inactive p.raw o refl).at (events, p.final) p.history fresh;
      checked = history_checked events (session_event id s) s;
    })
