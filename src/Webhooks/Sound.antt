-- ===== src/Webhooks/Sound.antt =====
-- Documents with delivery-status events (src/healthassure_messaging/providers/meta_webhooks.py): what
-- the parser returns, and what it raises.
use healthassure_messaging.Base.{
  ℕ, String, ◌≡◌, refl, Bool, true, false, not, Option, none, some, List, [], ◌∷◌, ◌++◌, All, ◌==◌,
}
use healthassure_messaging.Base.Text.{is_blank}
use healthassure_messaging.Errors.{Error, Result, ok, raise_if}
use healthassure_messaging.Json.{Value, Array, Object, nil, cons, get}
use healthassure_messaging.Webhooks.{DeliveryStatusEvent, check_event}
use healthassure_messaging.Webhooks.Parse.{
  fail, known_status, parse_status, parse_statuses, parse_change_statuses, parse_change_value,
  parse_messages_change, parse_change, parse_changes, parse_entry, parse_entries, expected_object,
  parse_document, parse_meta_delivery_status_events,
}
use healthassure_messaging.Webhooks.Closed.{
  Closed, Anything, Visible, Closed-ok, Closed-fail, Closed-bind, Closed-if, require_object-Closed,
  require_array-Closed, require_text-Closed, require_timestamp-Closed, parse_errors-Closed,
  parse_conversation-Closed, parse_pricing-Closed, check_event_ok,
}

-- An event that its constructor accepts, of this provider, with the status that its text stands for.
pub record IsSound (e : DeliveryStatusEvent) : Type 0 where
  pub valid : check_event e ≡ ok e
  pub provider : e.provider_key ≡ "meta"
  pub status : e.status ≡ known_status e.provider_status

visible_meta : is_blank "meta" ≡ false
unfolding is_blank
visible_meta = refl

checked : (e : DeliveryStatusEvent) → IsSound e → Closed IsSound (check_event e)
checked e s = rw s.valid (Closed-ok s)

parse_status-Closed :
    (waba phone : String) (v : Value)
    → Visible waba
    → Visible phone
    → Closed IsSound (parse_status waba phone v)
unfolding parse_status
parse_status-Closed waba phone v w p = Closed-bind (require_object-Closed (some v)) (λ s _.
    Closed-bind (require_text-Closed (get "id" s)) (λ id a.
      Closed-bind (require_text-Closed (get "status" s)) (λ status b.
        Closed-bind (require_timestamp-Closed (get "timestamp" s)) (λ timestamp _.
          Closed-bind (require_text-Closed (get "recipient_id" s)) (λ recipient c.
            Closed-bind (parse_errors-Closed (get "errors" s)) (λ errors _.
              Closed-bind (parse_conversation-Closed (get "conversation" s)) (λ conversation d.
                Closed-bind (parse_pricing-Closed (get "pricing" s)) (λ pricing f.
                  checked _ (record {
                    valid = check_event_ok _ visible_meta a b c w p d.0 d.1 f.0 f.1;
                    provider = refl;
                    status = refl;
                  })))))))))

All-append :
    (xs ys : List DeliveryStatusEvent) → All IsSound xs → All IsSound ys → All IsSound (xs ++ ys)
All-append [] ys p q = q
All-append (x ∷ xs) ys p q = (p.0, All-append xs ys p.1 q)

parse_statuses-Closed :
    (waba phone : String) (xs : Array)
    → Visible waba
    → Visible phone
    → Closed (All IsSound) (parse_statuses waba phone xs)
unfolding parse_statuses
parse_statuses-Closed waba phone nil w p = Closed-ok tt
parse_statuses-Closed waba phone (cons x xs) w p =
    Closed-bind (parse_status-Closed waba phone x w p)
      (λ e s. Closed-bind (parse_statuses-Closed waba phone xs w p) (λ es ss. Closed-ok (s, ss)))

parse_change_statuses-Closed :
    (entry value : Object) (xs : Array)
    → Closed (All IsSound) (parse_change_statuses entry value xs)
unfolding parse_change_statuses
parse_change_statuses-Closed entry value nil = Closed-ok tt
parse_change_statuses-Closed entry value (cons x xs) =
    Closed-bind (require_text-Closed (get "id" entry)) (λ waba w.
      Closed-bind (require_object-Closed (get "metadata" value)) (λ metadata _.
        Closed-bind (require_text-Closed (get "phone_number_id" metadata))
          (λ phone p. parse_statuses-Closed waba phone (cons x xs) w p)))

parse_change_value-Closed :
    (entry value : Object) (v : Option Value)
    → Closed (All IsSound) (parse_change_value entry value v)
unfolding parse_change_value
parse_change_value-Closed entry value none = Closed-ok tt
parse_change_value-Closed entry value (some v) =
    Closed-bind (require_array-Closed (some v))
      (λ xs _. parse_change_statuses-Closed entry value xs)

parse_messages_change-Closed :
    (entry change : Object) → Closed (All IsSound) (parse_messages_change entry change)
unfolding parse_messages_change
parse_messages_change-Closed entry change =
    Closed-bind (require_object-Closed (get "value" change))
      (λ value _. parse_change_value-Closed entry value (get "statuses" value))

parse_change-Closed : (entry : Object) (v : Value) → Closed (All IsSound) (parse_change entry v)
unfolding parse_change
parse_change-Closed entry v = Closed-bind (require_object-Closed (some v)) (λ change _.
    Closed-bind (require_text-Closed (get "field" change)) (λ name _.
      Closed-if (name == "messages") (parse_messages_change-Closed entry change) (Closed-ok tt)))

parse_changes-Closed : (entry : Object) (xs : Array) → Closed (All IsSound) (parse_changes entry xs)
unfolding parse_changes
parse_changes-Closed entry nil = Closed-ok tt
parse_changes-Closed entry (cons x xs) = Closed-bind (parse_change-Closed entry x) (λ es p.
    Closed-bind (parse_changes-Closed entry xs) (λ rest q. Closed-ok (All-append es rest p q)))

parse_entry-Closed : (v : Value) → Closed (All IsSound) (parse_entry v)
unfolding parse_entry
parse_entry-Closed v = Closed-bind (require_object-Closed (some v)) (λ entry _.
    Closed-bind (require_array-Closed (get "changes" entry))
      (λ changes _. parse_changes-Closed entry changes))

parse_entries-Closed : (xs : Array) → Closed (All IsSound) (parse_entries xs)
unfolding parse_entries
parse_entries-Closed nil = Closed-ok tt
parse_entries-Closed (cons x xs) =
    Closed-bind (parse_entry-Closed x)
      (λ es p. Closed-bind (parse_entries-Closed xs) (λ rest q. Closed-ok (All-append es rest p q)))

right_object : (b : Bool) → Closed Anything (raise_if (not b) Error.webhook_parse)
right_object true = Closed-ok tt
right_object false = Closed-fail

parse_document-Closed : (v : Value) → Closed (All IsSound) (parse_document v)
unfolding parse_document
parse_document-Closed v = Closed-bind (require_object-Closed (some v)) (λ root _.
    Closed-bind (right_object (expected_object (get "object" root))) (λ _ _.
      Closed-bind (require_array-Closed (get "entry" root))
        (λ entries _. parse_entries-Closed entries)))

decoded-Closed :
    (o : Option Value)
    → Closed (All IsSound) (elim o as (λ _. Result (List DeliveryStatusEvent)) [
      | none ↦ fail
      | some v ↦ parse_document v
    ])
decoded-Closed none = Closed-fail
decoded-Closed (some v) = parse_document-Closed v

-- Whatever the decoder makes of the body, the parser raises nothing but MetaWebhookParseError, and
-- each event that it returns is one that its constructor accepts, of the provider "meta", with the
-- status that its text stands for.
pub parse_events-Closed :
    (decode : List ℕ → Option Value) (body : List ℕ)
    → Closed (All IsSound) (parse_meta_delivery_status_events decode body)
unfolding parse_meta_delivery_status_events
parse_events-Closed decode body = decoded-Closed (decode body)
