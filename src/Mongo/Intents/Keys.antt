-- ===== src/Mongo/Intents/Keys.antt =====
-- The keys of the update that completes an attempt, in src/healthassure_messaging/persistence/mongo.py.
use Prim.Native.String.{◌++◌}
use healthassure_messaging.Base.{ℕ, String, ◌≡◌, refl, ◌∙◌, true, false, none, arith, ◌==◌, eq_iff}
use healthassure_messaging.Base.Append.{append-eq, is_dotted, is_dotted-append, dotted_ne}
use healthassure_messaging.Base.Decimal.{decimal}
use healthassure_messaging.ServiceContracts.{DispatchResult}
use healthassure_messaging.Json.{Object, end, field, get, has}
use healthassure_messaging.Mongo.Documents.{nat}
use healthassure_messaging.Mongo.Results.{attempt_result_fields}
use healthassure_messaging.Mongo.Updates.{operands}
use healthassure_messaging.Mongo.Intents.Requests.{attempt_key, complete_set, attempt_set}

key-is_dotted : (i : ℕ) (f : String) → is_dotted (attempt_key i f) ≡ true
unfolding attempt_key
key-is_dotted i f = is_dotted-append "attempts." (decimal i ++ "." ++ f) refl

key-eq : (i : ℕ) (f g : String) → (attempt_key i f == attempt_key i g) ≡ (f == g)
unfolding attempt_key
key-eq i f g =
    append-eq "attempts." (decimal i ++ "." ++ f) (decimal i ++ "." ++ g)
    ∙ append-eq (decimal i) ("." ++ f) ("." ++ g)
    ∙ append-eq "." f g

ne_sym : (s t : String) → (s == t) ≡ false → (t == s) ≡ false
ne_sym s t h = ground (arith, eq_iff s t, eq_iff t s)

-- A key without a dot is none of those of the attempt.
pub get_plain :
    (r : DispatchResult) (now i : ℕ) (k : String)
    → is_dotted k ≡ false
    → get k (operands "$set" (attempt_set r now i))
      ≡ get k (operands "$set" (complete_set r now end))
unfolding attempt_set complete_set attempt_result_fields get
get_plain r now i k h =
    let ne = λ (f : String). dotted_ne (attempt_key i f) k (key-is_dotted i f) h in
    rw (
      ne "state",
      ne "disposition",
      ne "provider_message_id",
      ne "provider_status",
      ne "error",
      ne "completed_at_epoch",
    )

-- A key of the attempt is none of the others.
pub get_nested :
    (r : DispatchResult) (now i : ℕ) (f : String)
    → get (attempt_key i f) (operands "$set" (attempt_set r now i))
      ≡ get f (attempt_result_fields (λ k. k) r (field "completed_at_epoch" (nat now) end))
unfolding attempt_set complete_set attempt_result_fields get
get_nested r now i f =
    let ne = λ (k : String) (h : is_dotted k ≡ false).
      ne_sym (attempt_key i f) k (dotted_ne (attempt_key i f) k (key-is_dotted i f) h) in
    rw (
      ne "state" refl,
      ne "result" refl,
      ne "updated_at_epoch" refl,
      ne "completed_at_epoch" refl,
      key-eq i "state" f,
      key-eq i "disposition" f,
      key-eq i "provider_message_id" f,
      key-eq i "provider_status" f,
      key-eq i "error" f,
      key-eq i "completed_at_epoch" f,
    )

pub get-has : (k : String) (d : Object) → get k d ≡ none → has k d ≡ false
unfolding has
get-has k d h = rw (h, has)
