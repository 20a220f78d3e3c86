-- ===== src/Mongo/Intents/Claimed.antt =====
-- The record after a claim of src/healthassure_messaging/persistence/mongo.py.
use healthassure_messaging.Base.{ℕ, ◌+◌, String, ◌≡◌, ◌≢◌, refl, ap, ◌∙◌, some, arith}
use healthassure_messaging.Base.Text.{is_blank, is_space}
use healthassure_messaging.Enums.{IntentState, state_of, state_value, member_of}
use healthassure_messaging.Errors.{ok, require_text}
use healthassure_messaging.Errors.Returns.{Returns, Returns-run}
use healthassure_messaging.ServiceContracts.{MessageIntent, check_intent, result_fits}
use healthassure_messaging.Json.{Value, Array, Object, get, has}
use healthassure_messaging.Mongo.Documents.{
  as_document, doc_text, text_value, doc_int, int_value, list_value, enum_of, nat, validate_schema,
  record_call,
}
use healthassure_messaging.Mongo.Refusals.{record_call-Returns}
use healthassure_messaging.Mongo.Intents.{
  validate_attempts, stored_result, build_intent, intent_from_document,
}
use healthassure_messaging.Mongo.Intents.Requests.{
  claim_attempt, claim_query, claim_update, active_index, is_null,
}
use healthassure_messaging.Mongo.Updates.{Applied, snoc}
use healthassure_messaging.Mongo.Intents.Attempts.{
  one_le, same_number, each_valid, length-snoc, array_at-snoc, add_sub, Attempts, Attempts-of,
  valid-Attempts, same_count,
}

abbrev pub dispatching_of : MessageIntent → MessageIntent
dispatching_of i = record i { state = IntentState.dispatching }

-- A claim accepts what was accepted.
check_dispatching :
    (i j : MessageIntent)
    → check_intent i ≡ ok j
    → j.state ≡ IntentState.pending
    → check_intent (dispatching_of i) ≡ ok (dispatching_of j)
unfolding check_intent result_fits require_text
check_dispatching i j h p = ground arith

dispatching_known :
    enum_of (state_of (state_value IntentState.dispatching)) ≡ ok IntentState.dispatching
unfolding state_value state_of enum_of member_of
dispatching_known = refl

module _ (n t : ℕ) (before after : Object) (a : Applied (claim_update n t) before after) where
  keeps_text : (k : String) → get k after ≡ get k before → doc_text after k ≡ doc_text before k
  unfolding doc_text
  keeps_text k h = ap text_value h

  state_after : get "state" after ≡ some (Value.str (state_value IntentState.dispatching))
  unfolding claim_update get
  state_after = a.sets "state" _ refl

  count_after :
      get "attempt_count" before ≡ some (nat n) → get "attempt_count" after ≡ some (nat (n + 1))
  unfolding claim_update get
  count_after h = a.increments "attempt_count" n 1 refl h

  attempts_after :
      (raw : Array)
      → get "attempts" before ≡ some (Value.arr raw)
      → get "attempts" after ≡ some (Value.arr (snoc raw (Value.obj (claim_attempt n t))))
  unfolding claim_update get
  attempts_after raw h = a.pushes "attempts" _ raw refl h

  dispatching_text : doc_text after "state" ≡ ok (state_value IntentState.dispatching)
  unfolding doc_text text_value state_value is_blank is_space
  dispatching_text = rw state_after

  build_after :
      Returns
        (λ i. i.state ≡ IntentState.pending → build_intent after ≡ ok (dispatching_of i))
        (build_intent before)
  unfolding build_intent claim_update get has
  build_after = Returns-run (doc_text before "state") (λ s hs.
      Returns-run (enum_of (state_of s)) (λ st hst.
        Returns-run (stored_result (get "result" before)) (λ r hr.
          Returns-run (doc_text before "intent_id") (λ t1 h1.
            Returns-run (doc_text before "source_flow") (λ t2 h2.
              Returns-run (doc_text before "idempotency_key") (λ t3 h3.
                Returns-run (doc_text before "actor_id") (λ t4 h4.
                  Returns-run (doc_text before "provider_key") (λ t5 h5.
                    Returns-run (doc_text before "correlation_id") (λ t6 h6.
                      Returns-run (doc_text before "request_fingerprint") (λ t7 h7.
                        Returns-run (doc_text before "serialized_request") (λ t8 h8. record {
                          at = λ i checked p.
                              rw
                                (
                                  dispatching_text,
                                  dispatching_known,
                                  a.keeps "result" refl,
                                  hr,
                                  keeps_text "intent_id" (a.keeps "intent_id" refl) ∙ h1,
                                  keeps_text "source_flow" (a.keeps "source_flow" refl) ∙ h2,
                                  keeps_text "idempotency_key" (a.keeps "idempotency_key" refl)
                                      ∙ h3,
                                  keeps_text "actor_id" (a.keeps "actor_id" refl) ∙ h4,
                                  keeps_text "provider_key" (a.keeps "provider_key" refl) ∙ h5,
                                  keeps_text "correlation_id" (a.keeps "correlation_id" refl) ∙ h6,
                                  keeps_text "request_fingerprint"
                                        (a.keeps "request_fingerprint" refl)
                                      ∙ h7,
                                  keeps_text "serialized_request"
                                        (a.keeps "serialized_request" refl)
                                      ∙ h8,
                                )
                                (check_dispatching _ i checked p);
                        })))))))))))

  claim-Attempts : Attempts n before → Attempts (n + 1) after
  claim-Attempts p = record {
    raw = snoc p.raw (Value.obj (claim_attempt n t));
    stored = attempts_after p.raw p.stored;
    counted = count_after p.counted;
    length_raw = length-snoc p.raw _ ∙ ap (λ m. m + 1) p.length_raw;
    valid = each_valid n t 1 p.raw p.valid (omega (arith, p.length_raw));
  }

  claim-active_index : Attempts n before → active_index after ≡ ok n
  unfolding active_index doc_int int_value list_value claim_attempt as_document get is_null
  claim-active_index p = rw (
    count_after p.counted,
    one_le n,
    attempts_after p.raw p.stored,
    length-snoc p.raw (Value.obj (claim_attempt n t)),
    p.length_raw,
    same_number (n + 1),
    add_sub n,
    array_at-snoc p.raw (Value.obj (claim_attempt n t)) n p.length_raw,
  )

  schema_after : validate_schema before ≡ ok tt → validate_schema after ≡ ok tt
  unfolding validate_schema claim_update get has
  schema_after h = rw (a.keeps "record_schema_version" refl) h

  -- What a claim does to an intent.
  claim-Returns :
      Returns
        (λ i.
          i.state ≡ IntentState.pending
          → doc_int before "attempt_count" 0 ≡ ok n
          → (intent_from_document (Value.obj after) ≡ ok (dispatching_of i))
            × (active_index after ≡ ok n))
        (intent_from_document (Value.obj before))
  unfolding intent_from_document as_document record_call
  claim-Returns = Returns-run (validate_schema before) (λ u schema.
      Returns-run (validate_attempts before) (λ v attempts. record_call-Returns _ (record {
        at = λ i h p counted.
            let q = (Attempts-of before).at v attempts in
            let r = same_count before n q.0 q.1 counted in
            (
              rw (
                schema_after schema,
                valid-Attempts after (n + 1) (claim-Attempts r),
                build_after.at i h p,
              ),
              claim-active_index r,
            );
      })))

unclaimed :
    (n t : ℕ) (before after : Object) (intent_id : String) (m : ℕ)
    → Applied (claim_update n t) before after
    → get "state" after ≢ get "state" (claim_query intent_id m)
unfolding claim_query get state_value
unclaimed n t before after intent_id m a h = cc (state_after n t before after a, h)

-- A pending intent that can be read is, after the update of a claim, the same intent in dispatch. The
-- new attempt, at the index of the old count, is the one that its completion will fill in. The record
-- has no longer the state that the query of a claim asks for, whatever count the query has.
pub intent_from_document-claim_update :
    (n t : ℕ) (before after : Object) (i : MessageIntent) (intent_id : String) (m : ℕ)
    → Applied (claim_update n t) before after
    → intent_from_document (Value.obj before) ≡ ok i
    → i.state ≡ IntentState.pending
    → doc_int before "attempt_count" 0 ≡ ok n
    → (intent_from_document (Value.obj after) ≡ ok (record i { state = IntentState.dispatching }))
      × (active_index after ≡ ok n)
      × (get "state" after ≢ get "state" (claim_query intent_id m))
intent_from_document-claim_update n t before after i intent_id m a h p counted =
    let r = (claim-Returns n t before after a).at i h p counted in
    (r.0, r.1, unclaimed n t before after intent_id m a)
