-- ===== src/Mongo/Policies/Readable.antt =====
-- What the reader of a recipient's record in src/healthassure_messaging/persistence/mongo.py finds in it.
use healthassure_messaging.Base.{
  negated_test, String, ◌≡◌, refl, ap, ◌∙◌, Bool, true, false, not, ◌||◌, some, List, [], ◌==◌,
  eq_iff, eq_refl, arith,
}
use healthassure_messaging.Errors.{Error, ok, raise_if}
use healthassure_messaging.Errors.Returns.{Returns, Returns-ok, Returns-run, Returns-raise_if}
use healthassure_messaging.Phone.{validate_e164_number}
use healthassure_messaging.ServiceContracts.{RecipientEligibility}
use healthassure_messaging.Json.{Value, Array, Object, get}
use healthassure_messaging.Mongo.Documents.{
  record_call, as_document, doc_text, doc_bool, bool_value, list_value, validate_schema, equals_one,
}
use healthassure_messaging.Mongo.Refusals.{record_call-Returns, list_stored}
use healthassure_messaging.Mongo.Policies.{
  read_events, no_history, bool_eq, build_policy_record, policy_record_from_document,
}

-- The content of a record that can be read.
pub record IsPolicy (d : Object) (recipient : String) (state : RecipientEligibility)
    (events : List Object) : Type 0 where
  pub schema : equals_one (get "record_schema_version" d) ≡ true
  pub stored_recipient : String
  pub recipient_text : doc_text d "recipient" ≡ ok stored_recipient
  pub recipient_valid : validate_e164_number stored_recipient ≡ ok recipient
  pub consented : get "consented" d ≡ some (Value.bool state.consented)
  pub suppressed : get "suppressed" d ≡ some (Value.bool state.suppressed)
  pub raw : Array
  pub stored : get "events" d ≡ some (Value.arr raw)
  pub history : read_events [] no_history raw ≡ ok (events, state)

flags_differ : (a b : Bool) → not (bool_eq a b) ≡ false → a ≡ b
flags_differ a b h = ground arith

final_state :
    (final : RecipientEligibility) (c p : Bool)
    → (not (bool_eq c final.consented) || not (bool_eq p final.suppressed)) ≡ false
    → final ≡ record { consented = c; suppressed = p }
final_state final c p h = ground arith

bool_eq_refl : (b : Bool) → bool_eq b b ≡ true
bool_eq_refl true = refl
bool_eq_refl false = refl

pub policy_reads :
    (d : Object) (recipient : String) (state : RecipientEligibility) (events : List Object)
    → IsPolicy d recipient state events
    → policy_record_from_document (Value.obj d) recipient ≡ ok (state, events)
unfolding policy_record_from_document build_policy_record validate_schema as_document doc_bool
    bool_value list_value record_call
policy_reads d recipient state events p = rw (
  p.schema,
  p.recipient_text,
  p.recipient_valid,
  eq_refl recipient,
  p.consented,
  p.suppressed,
  p.stored,
  p.history,
  bool_eq_refl state.consented,
  bool_eq_refl state.suppressed,
)

schema_passed :
    (d : Object) → validate_schema d ≡ ok tt → equals_one (get "record_schema_version" d) ≡ true
unfolding validate_schema
schema_passed d h = ground arith

bool_stored :
    (d : Object) (k : String) (b : Bool) → doc_bool d k ≡ ok b → get k d ≡ some (Value.bool b)
unfolding doc_bool bool_value
bool_stored d k b h = ground arith

passed : (b : Bool) (e : Error) {u : Unit {0}} → raise_if b e ≡ ok u → b ≡ false
passed true e h = cc
passed false e h = refl

build_Returns :
    (d : Object) (recipient : String)
    → equals_one (get "record_schema_version" d) ≡ true
    → Returns (λ r. IsPolicy d recipient r.0 r.1) (build_policy_record d recipient)
unfolding build_policy_record
build_Returns d recipient schema = Returns-run (doc_text d "recipient") (λ s text.
    Returns-run (validate_e164_number s) (λ n valid.
      Returns-raise_if (not (n == recipient)) Error.value_error (λ same.
        Returns-run (doc_bool d "consented") (λ c consented.
          Returns-run (doc_bool d "suppressed") (λ p suppressed.
            Returns-run (list_value Error.value_error (get "events" d)) (λ raw stored.
              Returns-run (read_events [] no_history raw) (λ r history.
                Returns-raise_if _ Error.value_error (λ flags. Returns-ok (record {
                  schema = schema;
                  stored_recipient = s;
                  recipient_text = text;
                  recipient_valid = rw ((eq_iff n recipient).0 (negated_test _ same)) at valid;
                  consented = bool_stored d "consented" c consented;
                  suppressed = bool_stored d "suppressed" p suppressed;
                  raw = raw;
                  stored = list_stored (get "events" d) Error.value_error raw stored;
                  history = history ∙ ap (λ x. ok (r.0, x)) (final_state r.1 c p flags);
                })))))))))

pub read-IsPolicy :
    (d : Object) (recipient : String)
    → Returns
        (λ r. IsPolicy d recipient r.0 r.1)
        (policy_record_from_document (Value.obj d) recipient)
unfolding policy_record_from_document as_document
read-IsPolicy d recipient =
    Returns-run (validate_schema d)
      (λ u valid. record_call-Returns _ (build_Returns d recipient (schema_passed d valid)))
