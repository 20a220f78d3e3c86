-- ===== src/Mongo/Intents/Completed.antt =====
-- The record after the completion of a pending intent in src/healthassure_messaging/persistence/mongo.py.
use mathlib.Core.Path.{subst}
use healthassure_messaging.Base.{ℕ, String, ◌≡◌, refl, sym, ap, ◌∙◌, true, ◌&&◌, some, arith}
use healthassure_messaging.Enums.{
  SendDisposition, IntentState, state_of, state_value, terminal_state, state_eq, is_terminal,
}
use healthassure_messaging.Enums.RoundTrip.{state_round_trip, state_visible}
use healthassure_messaging.Errors.{ok, ◌>>=◌, require_text}
use healthassure_messaging.Errors.Returns.{Returns, Returns-run}
use healthassure_messaging.ServiceContracts.{
  MessageIntent, DispatchResult, check_intent, check_dispatch_result, result_fits,
}
use healthassure_messaging.ServiceContracts.Checks.{check_intent-Checks}
use healthassure_messaging.Json.{Value, Object, end, get, has}
use healthassure_messaging.Mongo.Documents.{
  as_document, doc_text, text_value, doc_int, enum_of, validate_schema, record_call,
}
use healthassure_messaging.Mongo.Refusals.{record_call-Returns}
use healthassure_messaging.Mongo.Results.{result_to_document}
use healthassure_messaging.Mongo.Results.RoundTrip.{
  ErrorValid, result_from_document-result_to_document,
}
use healthassure_messaging.Mongo.Intents.{
  validate_attempts, stored_result, build_intent, intent_from_document,
}
use healthassure_messaging.Mongo.Intents.Requests.{complete_set, same_identity}
use healthassure_messaging.Mongo.Updates.{Applied}

abbrev pub completed_by : MessageIntent → DispatchResult → MessageIntent
completed_by i r = record i { state = terminal_state r.disposition; result = some r }

disposition_fits :
    (d : SendDisposition)
    → is_terminal (terminal_state d) && state_eq (terminal_state d) (terminal_state d) ≡ true
disposition_fits SendDisposition.accepted = refl
disposition_fits SendDisposition.rejected = refl
disposition_fits SendDisposition.unknown = refl

-- An accepted intent takes a result of its own identity.
check_completed :
    (i : MessageIntent) (r : DispatchResult)
    → check_intent i ≡ ok i
    → same_identity i.intent_id i r ≡ true
    → check_intent (completed_by i r) ≡ ok (completed_by i r)
unfolding check_intent result_fits require_text same_identity
check_completed i r h s = ground (arith, disposition_fits r.disposition)

result_stored :
    (r : DispatchResult)
    → check_dispatch_result r ≡ ok r
    → ErrorValid r.error
    → stored_result (some (result_to_document r)) ≡ ok (some r)
unfolding stored_result result_to_document
result_stored r v e =
    ap (λ m. m >>= λ x. ok (some x)) (result_from_document-result_to_document r v e)

state_known : (s : IntentState) → enum_of (state_of (state_value s)) ≡ ok s
unfolding enum_of
state_known s = rw (state_round_trip s)

-- What the reader builds is the intent that its constructor returns.
completed_again :
    (j i : MessageIntent) (r : DispatchResult)
    → check_intent j ≡ ok i
    → same_identity i.intent_id i r ≡ true
    → check_intent (completed_by j r) ≡ ok (completed_by i r)
completed_again j i r h same =
    let p = (check_intent-Checks j).returns i h in
    subst (λ x. check_intent (completed_by x r) ≡ ok (completed_by i r)) p
      (check_completed i r (subst (λ x. check_intent x ≡ ok i) (sym p) h) same)

-- The fields that a completion leaves as they are.
pub record Kept (before after : Object) : Type 0 where
  pub intent_id : get "intent_id" after ≡ get "intent_id" before
  pub source_flow : get "source_flow" after ≡ get "source_flow" before
  pub idempotency_key : get "idempotency_key" after ≡ get "idempotency_key" before
  pub actor_id : get "actor_id" after ≡ get "actor_id" before
  pub provider_key : get "provider_key" after ≡ get "provider_key" before
  pub correlation_id : get "correlation_id" after ≡ get "correlation_id" before
  pub request_fingerprint : get "request_fingerprint" after ≡ get "request_fingerprint" before
  pub serialized_request : get "serialized_request" after ≡ get "serialized_request" before
  pub schema : get "record_schema_version" after ≡ get "record_schema_version" before

-- A record with the result, and with attempts that can be read where they could be.
pub record CompletedTo (r : DispatchResult) (before after : Object) : Type 0 where
  pub kept : Kept before after
  pub state : get "state" after ≡ some (Value.str (state_value (terminal_state r.disposition)))
  pub result : get "result" after ≡ some (result_to_document r)
  pub attempts : validate_attempts before ≡ ok tt → validate_attempts after ≡ ok tt

keeps_text :
    (before after : Object) (k : String) (t : String)
    → get k after ≡ get k before
    → doc_text before k ≡ ok t
    → doc_text after k ≡ ok t
unfolding doc_text
keeps_text before after k t h p = ap text_value h ∙ p

module _ (r : DispatchResult) (before after : Object) (c : CompletedTo r before after) where
  state_after : doc_text after "state" ≡ ok (state_value (terminal_state r.disposition))
  unfolding doc_text text_value
  state_after = rw (c.state, state_visible (terminal_state r.disposition))

  result_after :
      check_dispatch_result r ≡ ok r
      → ErrorValid r.error
      → stored_result (get "result" after) ≡ ok (some r)
  result_after v e = rw (c.result) (result_stored r v e)

  build_after :
      check_dispatch_result r ≡ ok r
      → ErrorValid r.error
      → Returns
          (λ i. same_identity i.intent_id i r ≡ true → build_intent after ≡ ok (completed_by i r))
          (build_intent before)
  unfolding build_intent
  build_after v e = Returns-run (doc_text before "state") (λ s hs.
      Returns-run (enum_of (state_of s)) (λ st hst.
        Returns-run (stored_result (get "result" before)) (λ q hq.
          Returns-run (doc_text before "intent_id") (λ t1 h1.
            Returns-run (doc_text before "source_flow") (λ t2 h2.
              Returns-run (doc_text before "idempotency_key") (λ t3 h3.
                Returns-run (doc_text before "actor_id") (λ t4 h4.
                  Returns-run (doc_text before "provider_key") (λ t5 h5.
                    Returns-run (doc_text before "correlation_id") (λ t6 h6.
                      Returns-run (doc_text before "request_fingerprint") (λ t7 h7.
                        Returns-run (doc_text before "serialized_request") (λ t8 h8. record {
                          at = λ i checked same.
                              rw
                                (
                                  state_after,
                                  state_known (terminal_state r.disposition),
                                  result_after v e,
                                  keeps_text before after "intent_id" t1 c.kept.intent_id h1,
                                  keeps_text before after "source_flow" t2 c.kept.source_flow h2,
                                  keeps_text before after "idempotency_key" t3
                                      c.kept.idempotency_key h3,
                                  keeps_text before after "actor_id" t4 c.kept.actor_id h4,
                                  keeps_text before after "provider_key" t5 c.kept.provider_key h5,
                                  keeps_text before after "correlation_id" t6 c.kept.correlation_id
                                      h6,
                                  keeps_text before after "request_fingerprint" t7
                                      c.kept.request_fingerprint h7,
                                  keeps_text before after "serialized_request" t8
                                      c.kept.serialized_request h8,
                                )
                                (completed_again _ i r checked same);
                        })))))))))))

  schema_after : validate_schema before ≡ ok tt → validate_schema after ≡ ok tt
  unfolding validate_schema
  schema_after h = rw (c.kept.schema) h

  complete-Returns :
      check_dispatch_result r ≡ ok r
      → ErrorValid r.error
      → Returns
          (λ i.
            same_identity i.intent_id i r ≡ true
            → intent_from_document (Value.obj after) ≡ ok (completed_by i r))
          (intent_from_document (Value.obj before))
  unfolding intent_from_document as_document record_call
  complete-Returns v e = Returns-run (validate_schema before) (λ u schema.
      Returns-run (validate_attempts before) (λ w attempts. record_call-Returns _ (record {
        at = λ i h same.
            rw (schema_after schema, c.attempts attempts, (build_after v e).at i h same);
      })))

-- A completion of a readable intent.
pub completed_read :
    (r : DispatchResult) (before after : Object) (i : MessageIntent)
    → CompletedTo r before after
    → intent_from_document (Value.obj before) ≡ ok i
    → same_identity i.intent_id i r ≡ true
    → check_dispatch_result r ≡ ok r
    → ErrorValid r.error
    → intent_from_document (Value.obj after) ≡ ok (completed_by i r)
completed_read r before after i c h same v e = (complete-Returns r before after c v e).at i h same

pending-CompletedTo :
    (r : DispatchResult) (now : ℕ) (before after : Object)
    → Applied (complete_set r now end) before after
    → CompletedTo r before after
unfolding validate_attempts doc_int complete_set get has
pending-CompletedTo r now before after a = record {
  kept = record {
    intent_id = a.keeps "intent_id" refl;
    source_flow = a.keeps "source_flow" refl;
    idempotency_key = a.keeps "idempotency_key" refl;
    actor_id = a.keeps "actor_id" refl;
    provider_key = a.keeps "provider_key" refl;
    correlation_id = a.keeps "correlation_id" refl;
    request_fingerprint = a.keeps "request_fingerprint" refl;
    serialized_request = a.keeps "serialized_request" refl;
    schema = a.keeps "record_schema_version" refl;
  };
  state = a.sets "state" _ refl;
  result = a.sets "result" _ refl;
  attempts = λ h. rw (a.keeps "attempts" refl, a.keeps "attempt_count" refl) h;
}

-- The update that completes a pending intent with a result of its identity, which is one that its
-- constructor accepts, turns the record into a readable one of the same intent with that result, in the
-- terminal state of its disposition.
pub intent_from_document-complete_set :
    (r : DispatchResult) (now : ℕ) (before after : Object) (i : MessageIntent)
    → Applied (complete_set r now end) before after
    → intent_from_document (Value.obj before) ≡ ok i
    → same_identity i.intent_id i r ≡ true
    → check_dispatch_result r ≡ ok r
    → ErrorValid r.error
    → intent_from_document (Value.obj after)
      ≡ ok (record i { state = terminal_state r.disposition; result = some r })
intent_from_document-complete_set r now before after i a h same v e =
    completed_read r before after i (pending-CompletedTo r now before after a) h same v e
