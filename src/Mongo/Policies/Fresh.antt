-- ===== src/Mongo/Policies/Fresh.antt =====
-- Identifiers that no stored event of src/healthassure_messaging/persistence/mongo.py has.
use healthassure_messaging.Base.{String, ◌≡◌, false, none, List, ◌∷◌, elem, ◌==◌, eq_iff, arith}
use healthassure_messaging.Errors.{ok}
use healthassure_messaging.Json.{Object}
use healthassure_messaging.Mongo.Documents.{doc_text, text_value}
use healthassure_messaging.Mongo.Policies.{find_event}

-- An identifier that no event has.
abbrev pub Fresh : String → List Object → Type 0
Fresh event_id events = find_event event_id events ≡ none

pub Fresh-head :
    (id : String) (d : Object) (ds : List Object)
    → Fresh id (d ∷ ds)
    → (s : String) → doc_text d "event_id" ≡ ok s
    → ((id == s) ≡ false) × Fresh id ds
unfolding find_event doc_text text_value
Fresh-head id d ds f s h = (ground (arith, eq_iff s id, eq_iff id s), ground arith)

pub Fresh-next :
    (a b : String) (ids : List String)
    → (a == b) ≡ false
    → elem a ids ≡ false
    → elem a (b ∷ ids) ≡ false
Fresh-next a b ids d h = rw (d, h)
