-- ===== src/Mongo/Sessions/Readable.antt =====
-- What the reader of a session's record in src/healthassure_messaging/persistence/mongo.py finds in it.
use healthassure_messaging.Base.{
  negated_test, String, ◌≡◌, refl, ap, ◌∙◌, Bool, true, false, not, ◌&&◌, some, List, [], ◌∷◌, elem,
  ◌==◌, eq_iff, eq_refl, arith,
}
use healthassure_messaging.Base.Text.{is_blank}
use healthassure_messaging.Errors.{Error, Result, ok, require_text}
use healthassure_messaging.Errors.Returns.{Returns, Returns-ok, Returns-run, Returns-raise_if}
use healthassure_messaging.Phone.{validate_e164_number}
use healthassure_messaging.Json.{Value, Array, Object, get}
use healthassure_messaging.Mongo.Documents.{
  record_call, as_document, text_value, doc_text, doc_int, list_value, validate_schema,
}
use healthassure_messaging.Mongo.Refusals.{record_call-Returns, list_stored}
use healthassure_messaging.Mongo.Sessions.{
  Session, SessionScope, inactive, is_empty, check_history, purposes_after, purpose_keys,
  stored_purposes_after, stored_purpose_keys, read_openings, build_session_record,
  session_record_from_document, text_array,
}

and_false : (b : Bool) → (b && false) ≡ false
and_false true = refl
and_false false = refl

text_kept : (p q : String) → require_text p ≡ ok q → is_blank q ≡ false
unfolding require_text
text_kept p q h = ground arith

-- Purposes that were accepted are read again.
purposes_again :
    (seen given : List String)
    → Returns (λ ps. stored_purposes_after seen (text_array ps) ≡ ok ps) (purposes_after seen given)
unfolding purposes_after stored_purposes_after text_array text_value
purposes_again seen [] = Returns-ok refl
purposes_again seen (p ∷ given) = Returns-run (require_text p) (λ q visible.
    Returns-raise_if (elem q seen) Error.value_error (λ new.
      Returns-run (purposes_after (q ∷ seen) given) (λ rest h.
        Returns-ok (rw (text_kept p q visible, new, (purposes_again (q ∷ seen) given).at rest h)))))

pub kept_purposes :
    (b : Bool) (given ps : List String)
    → purpose_keys given ≡ ok ps
    → stored_purpose_keys (some (Value.arr (text_array ps))) b ≡ ok ps
unfolding purpose_keys stored_purpose_keys list_value
kept_purposes b given ps h = (kept given).at ps h
  where
    kept :
        (given : List String)
        → Returns
            (λ ps. stored_purpose_keys (some (Value.arr (text_array ps))) b ≡ ok ps)
            (purpose_keys given)
    kept given = Returns-run (purposes_after [] given) (λ ps made.
        Returns-raise_if (is_empty ps) Error.value_error (λ some_purpose.
          Returns-ok (rw ((purposes_again [] given).at ps made, some_purpose, and_false (not b)))))

-- The content of a record that can be read.
pub record IsSession (d : Object) (scope : SessionScope) (s : Session) (events : List Object)
    : Type 0 where
  pub schema : validate_schema d ≡ ok tt
  pub provider : doc_text d "provider_key" ≡ ok scope.provider_key
  pub phone : doc_text d "phone_number_id" ≡ ok scope.phone_number_id
  pub stored_recipient : String
  pub recipient_text : doc_text d "recipient" ≡ ok stored_recipient
  pub recipient_valid : validate_e164_number stored_recipient ≡ ok scope.recipient
  pub purposes : stored_purpose_keys (get "allowed_purpose_keys" d) true ≡ ok s.purposes
  pub opened : doc_int d "opened_at_epoch" 0 ≡ ok s.opened_at
  pub expires : doc_int d "expires_at_epoch" 0 ≡ ok s.expires_at
  pub raw : Array
  pub stored : get "events" d ≡ some (Value.arr raw)
  pub final : Session
  pub history : read_openings [] inactive raw ≡ ok (events, final)
  pub checked : check_history events s final ≡ ok tt

pub session_reads :
    (d : Object) (scope : SessionScope) (s : Session) (events : List Object)
    → IsSession d scope s events
    → session_record_from_document (Value.obj d) scope ≡ ok (s, events)
unfolding session_record_from_document build_session_record as_document list_value record_call
session_reads d scope s events p = rw (
  p.schema,
  p.provider,
  eq_refl scope.provider_key,
  p.phone,
  eq_refl scope.phone_number_id,
  p.recipient_text,
  p.recipient_valid,
  eq_refl scope.recipient,
  p.purposes,
  p.opened,
  p.expires,
  p.stored,
  p.history,
  p.checked,
)

same_text : (a b : String) (m : Result String) → m ≡ ok a → not (a == b) ≡ false → m ≡ ok b
same_text a b m h e = h ∙ ap ok ((eq_iff a b).0 (negated_test (a == b) e))

build-IsSession :
    (d : Object) (scope : SessionScope)
    → validate_schema d ≡ ok tt
    → Returns (λ r. IsSession d scope r.0 r.1) (build_session_record d scope)
unfolding build_session_record
build-IsSession d scope schema = Returns-run (doc_text d "provider_key") (λ a provider.
    Returns-raise_if (not (a == scope.provider_key)) Error.value_error (λ same_provider.
      Returns-run (doc_text d "phone_number_id") (λ b phone.
        Returns-raise_if (not (b == scope.phone_number_id)) Error.value_error (λ same_phone.
          Returns-run (doc_text d "recipient") (λ r text.
            Returns-run (validate_e164_number r) (λ n valid.
              Returns-raise_if (not (n == scope.recipient)) Error.value_error (λ same_recipient.
                Returns-run (stored_purpose_keys (get "allowed_purpose_keys" d) true)
                  (λ ps purposes. Returns-run (doc_int d "opened_at_epoch" 0) (λ from opened.
                    Returns-run (doc_int d "expires_at_epoch" 0) (λ until expires.
                      Returns-run (list_value Error.value_error (get "events" d)) (λ raw stored.
                        Returns-run (read_openings [] inactive raw) (λ q history.
                          Returns-run
                            (check_history q.0
                              (record { purposes = ps; opened_at = from; expires_at = until }) q.1)
                            (λ u checked. Returns-ok (record {
                              schema = schema;
                              provider = same_text a scope.provider_key _ provider same_provider;
                              phone = same_text b scope.phone_number_id _ phone same_phone;
                              stored_recipient = r;
                              recipient_text = text;
                              recipient_valid = same_text n scope.recipient _ valid same_recipient;
                              purposes = purposes;
                              opened = opened;
                              expires = expires;
                              raw = raw;
                              stored = list_stored (get "events" d) Error.value_error raw stored;
                              final = q.1;
                              history = history;
                              checked = checked;
                            }))))))))))))))

pub read-IsSession :
    (d : Object) (scope : SessionScope)
    → Returns (λ r. IsSession d scope r.0 r.1) (session_record_from_document (Value.obj d) scope)
unfolding session_record_from_document as_document
read-IsSession d scope =
    Returns-run (validate_schema d)
      (λ u valid. record_call-Returns _ (build-IsSession d scope valid))
