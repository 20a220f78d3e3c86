-- ===== src/Provider/Gateway.antt =====
-- What `MessagingGateway.send` guarantees to its caller.
use healthassure_messaging.Base.{
  String, ◌≡◌, ◌≢◌, refl, ap, ◌∙◌, ◌⊎◌, inl, inr, true, false, none, some, [], ◌∷◌, ◌==◌, elem,
  arith, eq_iff, Bool-cases, Option-cases,
}
use healthassure_messaging.Base.Text.{is_blank}
use healthassure_messaging.Errors.{Error, Result, ok, err, Result-cases}
use healthassure_messaging.Contracts.{MessageRequest, SendResult}
use healthassure_messaging.Provider.{
  Provider, ProviderRegistry, World, Reply, keys, find_provider, get, accept_reply, invoke,
  gateway_send,
}

-- An accepted result names the selected provider and the request's correlation.
accept_reply-ok :
    (key : String) (request : MessageRequest) (reply : Reply SendResult) {r : SendResult}
    → accept_reply key request reply ≡ ok r
    → (r.provider_key ≡ key) × (r.correlation_id ≡ request.correlation_id)
unfolding accept_reply
accept_reply-ok key request (Reply.value v) h =
    ground (arith, eq_iff v.provider_key key, eq_iff v.correlation_id request.correlation_id)
accept_reply-ok key request Reply.invalid h = cc
accept_reply-ok key request (Reply.raised Error.provider_not_found) h = cc
accept_reply-ok key request (Reply.raised e) h = cc

accept_reply-found :
    (key : String) (request : MessageRequest) (reply : Reply SendResult)
    → accept_reply key request reply ≢ err Error.provider_not_found
unfolding accept_reply
accept_reply-found key request (Reply.value v) h = ground arith
accept_reply-found key request Reply.invalid h = cc
accept_reply-found key request (Reply.raised Error.provider_not_found) h = cc
accept_reply-found key request (Reply.raised e) h = cc

module _ {E : Type 0} (providers : ProviderRegistry E) (key : String) (request : MessageRequest)
    (w : World E) where
  get-error : {e : Error} → get providers key ≡ err e → e ≡ Error.provider_not_found
  unfolding get
  get-error h = ground arith

  pub gateway_send_cases :
      let (r, w') = gateway_send providers key request w in
      ((r ≡ err Error.provider_not_found) × (w' ≡ w)
        ⊎ (r ≢ err Error.provider_not_found) × (w'.sent ≡ (key, request) ∷ w.sent))
      × ((s : SendResult)
          → r ≡ ok s
          → (s.provider_key ≡ key) × (s.correlation_id ≡ request.correlation_id))
  unfolding gateway_send invoke
  gateway_send_cases = elim (Result-cases (get providers key)) [
    | inl (p, e) ↦
        let (reply, env) = p.send request w.env in
        rw (e, gateway_send)
          (
            inr (accept_reply-found key request reply, refl),
            λ s h. accept_reply-ok key request reply h,
          )
    | inr (x, e) ↦ rw (e, gateway_send) (inl (ap err (get-error e), refl), λ s h. cc)
  ]

-- The provider of the first entry with this key.
pub data Selected {E : Type 0} (key : String) (p : Provider E) : ProviderRegistry E → Type 0 where
  here :
      {k : String} {q : Provider E} {rest : ProviderRegistry E}
      → k ≡ key
      → q ≡ p
      → Selected key p ((k, q) ∷ rest)
  later :
      {k : String} {q : Provider E} {rest : ProviderRegistry E}
      → k ≢ key
      → Selected key p rest
      → Selected key p ((k, q) ∷ rest)

-- What a call of this provider makes of a request, if it was the only one.
pub record Called {E : Type 0} (key : String) (request : MessageRequest) (w : World E)
    (p : Provider E) (r : Result SendResult) (w' : World E) : Type 0 where
  pub sent : w'.sent ≡ (key, request) ∷ w.sent
  pub env : w'.env ≡ (p.send request w.env).1
  pub found : r ≢ err Error.provider_not_found
  pub returned :
      (s : SendResult)
      → r ≡ ok s
      → ((p.send request w.env).0 ≡ Reply.value s)
        × (s.provider_key ≡ key)
        × (s.correlation_id ≡ request.correlation_id)
  pub passed :
      (s : SendResult)
      → (p.send request w.env).0 ≡ Reply.value s
      → s.provider_key ≡ key
      → s.correlation_id ≡ request.correlation_id
      → r ≡ ok s

accept_reply-value :
    (key : String) (request : MessageRequest) (reply : Reply SendResult) {s : SendResult}
    → accept_reply key request reply ≡ ok s
    → reply ≡ Reply.value s
unfolding accept_reply
accept_reply-value key request (Reply.value v) h = ground arith
accept_reply-value key request Reply.invalid h = cc
accept_reply-value key request (Reply.raised Error.provider_not_found) h = cc
accept_reply-value key request (Reply.raised e) h = cc

accept_reply-passed :
    (request : MessageRequest) (s : SendResult) {key : String}
    → s.provider_key ≡ key
    → s.correlation_id ≡ request.correlation_id
    → accept_reply key request (Reply.value s) ≡ ok s
unfolding accept_reply
accept_reply-passed request s {key = key} p c =
    ground (arith, eq_iff s.provider_key key, eq_iff s.correlation_id request.correlation_id)

module _ {E : Type 0} where
  found-Selected :
      (key : String) (providers : ProviderRegistry E) (p : Provider E)
      → find_provider key providers ≡ some p
      → Selected key p providers
  unfolding find_provider
  found-Selected key [] p h = absurd (cc h)
  found-Selected key ((k, q) ∷ rest) p h = elim (Bool-cases (k == key)) [
    | inl e ↦ here ((eq_iff k key).0 e) (ground arith)
    | inr e ↦ later (ground (arith, eq_iff k key)) (found-Selected key rest p (ground arith))
  ]

  missing_key :
      (key : String) (providers : ProviderRegistry E)
      → find_provider key providers ≡ none
      → elem key (keys providers) ≡ false
  unfolding find_provider keys
  missing_key key [] h = refl
  missing_key key ((k, q) ∷ rest) h =
      ground (arith, eq_iff k key, eq_iff key k, missing_key key rest)

  get-error_cases :
      (providers : ProviderRegistry E) (key : String)
      → get providers key ≡ err Error.provider_not_found
      → (is_blank key ≡ true) ⊎ (elem key (keys providers) ≡ false)
  unfolding get
  get-error_cases providers key h = elim (Option-cases (find_provider key providers)) [
    | inl missing ↦ inr (missing_key key providers missing)
    | inr (p, found) ↦ ground arith
  ]

  get-Selected :
      (providers : ProviderRegistry E) (key : String) (p : Provider E)
      → get providers key ≡ ok p
      → Selected key p providers
  unfolding get
  get-Selected providers key p h =
      found-Selected key providers p (elim (Option-cases (find_provider key providers)) [
        | inl missing ↦ ground arith
        | inr (q, found) ↦ ground arith
      ])

-- The gateway raises `ProviderNotFoundError` and changes nothing where the key is blank or is not
-- registered. Otherwise it calls the provider of the first entry with that key exactly once, with
-- the request, and raises no such error; it returns the provider's answer where that is a result
-- that names the key and the request's correlation, and returns nothing else.
pub gateway_send_lem :
    {E : Type 0} (providers : ProviderRegistry E) (key : String) (request : MessageRequest)
    (w : World E)
    → let (r, w') = gateway_send providers key request w in
      ((is_blank key ≡ true) ⊎ (elem key (keys providers) ≡ false))
        × (r ≡ err Error.provider_not_found)
        × (w' ≡ w)
      ⊎ (p : Provider E) × Selected key p providers × Called key request w p r w'
unfolding gateway_send invoke
gateway_send_lem providers key request w = elim (Result-cases (get providers key)) [
  | inl (p, e) ↦
      let reply = (p.send request w.env).0 in
      rw (e, gateway_send)
        (inr (
          p,
          get-Selected providers key p e,
          record {
            sent = refl;
            env = refl;
            found = accept_reply-found key request reply;
            returned = λ s h.
                let named = accept_reply-ok key request reply h in
                (accept_reply-value key request reply h, named.0, named.1);
            passed = λ s h k c. rw h (accept_reply-passed request s k c);
          },
        ))
  | inr (x, e) ↦
      let missing = e ∙ ap err (get-error providers key request w e) in
      rw (e, gateway_send)
        (inl (
          get-error_cases providers key missing,
          ap err (get-error providers key request w e),
          refl,
        ))
]
