-- ===== src/Meta/Dispositions.antt =====
-- What justifies each disposition that the Meta provider reports.
use healthassure_messaging.Base.{
  ℕ, ◌≤◌, ◌<◌, ◌⊎◌, String, ◌≡◌, refl, ◌∙◌, ap, true, false, ◌&&◌, Option, none, some, List, leb,
  ltb, arith, Bool-cases, Option-cases, inl, inr, if◌then◌else◌,
}
use healthassure_messaging.Enums.{SendDisposition}
use healthassure_messaging.Errors.{ok, >>=-eq-ok, Result-cases}
use healthassure_messaging.Contracts.{NormalizedError, MessageRequest, SendResult, check_error}
use healthassure_messaging.Contracts.Checks.{check_error-Checks, check_send_result-Checks}
use healthassure_messaging.Http.{HttpResponse, HttpOutcome, TransportFailureKind}
use healthassure_messaging.Json.{Loaded, Object}
use healthassure_messaging.Meta.{
  result, error_result, transport_failure_result, protocol_unknown_result,
  unverified_server_error_result, code_of, get_in, error_object, message_id, document_of,
  success_result, rejection_error, unverified, rejection_result, response_result, outcome_result,
}

module _ (decode : List ℕ → Loaded) where
  -- The evidence for a disposition in the outcome of the transport.
  abbrev pub Evidence : HttpOutcome → SendResult → SendDisposition → Type 0
  Evidence outcome r SendDisposition.accepted =
      (response : HttpResponse) × (document : Option Object) × (id : String) × (outcome
        ≡ HttpOutcome.response response)
      × (document_of decode response ≡ ok document)
      × (200 ≤ response.status_code)
      × (response.status_code < 300)
      × (message_id document ≡ some id)
      × (r.provider_message_id ≡ some id)
      × (r.error ≡ none)
  Evidence outcome r SendDisposition.rejected =
      (response : HttpResponse) × (document : Option Object) × (outcome
        ≡ HttpOutcome.response response)
      × (document_of decode response ≡ ok document)
      × ((response.status_code < 200) ⊎ (300 ≤ response.status_code))
      × (500 ≤ response.status_code
          → response.status_code ≤ 599
          → (n : ℕ) × (code_of (get_in "code" (error_object document)) ≡ some n))
      × (r.error ≡ some (rejection_error document response))
  Evidence outcome r SendDisposition.unknown =
      (e : NormalizedError) × (r.error ≡ some e)
      × (e.unknown_outcome ≡ true)
      × (e.retriable ≡ false)

  -- The two builders return what they are given.
  result-fields :
      (q : MessageRequest) (d : SendDisposition) (id st : Option String)
      (e : Option NormalizedError) {r : SendResult}
      → result q d id st e ≡ ok r
      → (r.disposition ≡ d) × (r.provider_message_id ≡ id) × (r.error ≡ e)
  unfolding result
  result-fields q d id st e {r = r} h =
      let p = (check_send_result-Checks _).returns r h in
      (
        ap (λ (x : SendResult). x.disposition) p,
        ap (λ (x : SendResult). x.provider_message_id) p,
        ap (λ (x : SendResult). x.error) p,
      )

  error_result-fields :
      (q : MessageRequest) (d : SendDisposition) (e : NormalizedError) (r : SendResult)
      → error_result q d e ≡ ok r
      → (r.disposition ≡ d) × (r.error ≡ some e)
  unfolding error_result
  error_result-fields q d e r h =
      let (x, checked, made) = >>=-eq-ok (check_error e) (λ y. result q d none none (some y)) h in
      let fields = result-fields q d none none (some x) made in
      (fields.0, fields.2 ∙ ap some ((check_error-Checks e).returns x checked))

  unknown-Evidence :
      (outcome : HttpOutcome) (q : MessageRequest) (e : NormalizedError) (r : SendResult)
      → error_result q SendDisposition.unknown e ≡ ok r
      → e.unknown_outcome ≡ true
      → e.retriable ≡ false
      → Evidence outcome r r.disposition
  unknown-Evidence outcome q e r h u t =
      let fields = error_result-fields q SendDisposition.unknown e r h in
      rw fields.0 (e, fields.1, u, t)

  success-Evidence :
      (q : MessageRequest) (document : Option Object) (response : HttpResponse) (r : SendResult)
      → document_of decode response ≡ ok document
      → 200 ≤ response.status_code
      → response.status_code < 300
      → success_result q document response ≡ ok r
      → Evidence (HttpOutcome.response response) r r.disposition
  unfolding success_result protocol_unknown_result
  success-Evidence q document response r read low high h =
      elim (Option-cases (message_id document)) [
        | inl e ↦ unknown-Evidence _ q _ r (rw (e, success_result) at h) refl refl
        | inr (id, e) ↦
            let fields =
              result-fields q SendDisposition.accepted (some id) (some "accepted") none
                (rw (e, success_result) at h) in
            rw fields.0 (response, document, id, refl, read, low, high, e, fields.1, fields.2)
      ]

  verified :
      (document : Option Object) (response : HttpResponse)
      → unverified document response ≡ false
      → 500 ≤ response.status_code
      → response.status_code ≤ 599
      → (n : ℕ) × (code_of (get_in "code" (error_object document)) ≡ some n)
  unfolding unverified
  verified document response e low high =
      elim (Option-cases (code_of (get_in "code" (error_object document)))) [
        | inl p ↦ absurd (ground arith)
        | inr found ↦ found
      ]

  rejection-Evidence :
      (q : MessageRequest) (document : Option Object) (response : HttpResponse) (r : SendResult)
      → document_of decode response ≡ ok document
      → (response.status_code < 200) ⊎ (300 ≤ response.status_code)
      → rejection_result q document response ≡ ok r
      → Evidence (HttpOutcome.response response) r r.disposition
  unfolding rejection_result unverified_server_error_result
  rejection-Evidence q document response r read range h =
      elim (Bool-cases (unverified document response)) [
        | inl e ↦ unknown-Evidence _ q _ r (rw e at h) refl refl
        | inr e ↦
            let fields =
              error_result-fields q SendDisposition.rejected (rejection_error document response) r
                (rw e at h) in
            rw fields.0
              (response, document, refl, read, range, verified document response e, fields.1)
      ]

  decoded-Evidence :
      (q : MessageRequest) (document : Option Object) (response : HttpResponse) (r : SendResult)
      → document_of decode response ≡ ok document
      → (if leb 200 response.status_code && ltb response.status_code 300
          then success_result q document response
          else rejection_result q document response)
        ≡ ok r
      → Evidence (HttpOutcome.response response) r r.disposition
  decoded-Evidence q document response r read h =
      elim (Bool-cases (leb 200 response.status_code && ltb response.status_code 300)) [
        | inl e ↦
            success-Evidence q document response r read (ground arith) (ground arith) (rw e at h)
        | inr e ↦ rejection-Evidence q document response r read (ground arith) (rw e at h)
      ]

  -- Whatever the transport reports, a result that is returned has the evidence of its disposition.
  pub outcome_result-Evidence :
      (q : MessageRequest) (outcome : HttpOutcome) (r : SendResult)
      → outcome_result decode q outcome ≡ ok r
      → Evidence outcome r r.disposition
  unfolding outcome_result response_result transport_failure_result
  outcome_result-Evidence q (HttpOutcome.failure TransportFailureKind.timeout) r h =
      unknown-Evidence _ q _ r h refl refl
  outcome_result-Evidence q (HttpOutcome.failure TransportFailureKind.network) r h =
      unknown-Evidence _ q _ r h refl refl
  outcome_result-Evidence q (HttpOutcome.response response) r h =
      elim (Result-cases (document_of decode response)) [
        | inl (document, read) ↦
            decoded-Evidence q document response r read (rw (read, response_result) at h)
        | inr (e, read) ↦ absurd (cc (rw (read, response_result) at h))
      ]
