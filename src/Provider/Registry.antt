-- ===== src/Provider/Registry.antt =====
-- The provider registry as a map.
use healthassure_messaging.Base.{
  String, ◌≡◌, ◌≢◌, refl, ◌∙◌, inl, inr, Option, none, some, List, [], ◌∷◌, ◌++◌, ◌==◌,
  if◌then◌else◌, arith, eq_iff, Bool-cases,
}
use healthassure_messaging.Errors.{Error, Result, ok, err}
use healthassure_messaging.Provider.{
  Provider, ProviderRegistry, find_provider, validate_key, register, get,
}

module _ {E : Type 0} where
  -- The provider found, or the one that was added last.
  abbrev or_added : Option (Provider E) → String → String → Provider E → Option (Provider E)
  or_added none k j p = if k == j then some p else none
  or_added (some q) k j p = some q

  find_provider-append :
      (k j : String) (p : Provider E) (r : ProviderRegistry E)
      → find_provider j (r ++ ((k, p) ∷ [])) ≡ or_added (find_provider j r) k j p
  unfolding find_provider
  find_provider-append k j p [] = refl
  find_provider-append k j p ((i, q) ∷ r) = elim (Bool-cases (i == j)) [
    | inl e ↦ rw e
    | inr e ↦ rw e (find_provider-append k j p r)
  ]

  -- A registration that succeeds was of a key that had no provider and that is the provider's own.
  -- Afterwards the key selects that provider, and every other key selects what it did before.
  pub register-get :
      (r : ProviderRegistry E) (k : String) (p : Provider E) {r' : ProviderRegistry E}
      → register r k p ≡ ok r'
      → (get r k ≡ err Error.provider_not_found)
        × (p.key ≡ k)
        × (get r' k ≡ ok p)
        × ((j : String) → j ≢ k → get r' j ≡ get r j)
  unfolding register get validate_key
  register-get r k p {r' = r'} h = (
    ground (arith, eq_iff p.key k),
    ground (arith, eq_iff p.key k),
    ground (arith, eq_iff p.key k, eq_iff k k, find_provider-append k k p r),
    λ j ne. ground (arith, eq_iff p.key k, eq_iff k j, find_provider-append k j p r),
  )

  -- The registry after an attempt to register: an exception leaves it as it was.
  abbrev attempted : ProviderRegistry E → Result (ProviderRegistry E) → ProviderRegistry E
  attempted r (ok r') = r'
  attempted r (err e) = r

  -- The registry after these attempts, in their order.
  abbrev pub register_all : ProviderRegistry E → List (String × Provider E) → ProviderRegistry E
  register_all r [] = r
  register_all r ((k, p) ∷ later) = register_all (attempted r (register r k p)) later

  attempted-get :
      (r : ProviderRegistry E) (k j : String) (p q : Provider E) (o : Result (ProviderRegistry E))
      → register r j q ≡ o
      → get r k ≡ ok p
      → get (attempted r o) k ≡ ok p
  attempted-get r k j p q (err e) made h = h
  attempted-get r k j p q (ok r') made h = elim (Bool-cases (k == j)) [
    | inl same ↦
        let free = (register-get r j q made).0 in absurd (cc (free, h, (eq_iff k j).0 same))
    | inr other ↦
        let frame = (register-get r j q made).3 k (ground (arith, eq_iff k j)) in frame ∙ h
  ]

  registered-kept :
      (r : ProviderRegistry E) (k : String) (p : Provider E) (later : List (String × Provider E))
      → get r k ≡ ok p
      → get (register_all r later) k ≡ ok p
  registered-kept r k p [] h = h
  registered-kept r k p ((j, q) ∷ later) h =
      registered-kept (attempted r (register r j q)) k p later
        (attempted-get r k j p q (register r j q) refl h)

  taken :
      (r : ProviderRegistry E) (k : String) (p q : Provider E)
      → get r k ≡ ok p
      → register r k q ≡ err Error.duplicate_provider
  unfolding register validate_key get
  taken r k p q h = ground arith

  -- Once a key has been registered, and after any further attempts to register, of any keys and
  -- providers and whether they succeed or raise, the key selects the same provider, and an attempt to
  -- register it raises `DuplicateProviderError`.
  pub register_twice :
      (r : ProviderRegistry E) (k : String) (p : Provider E) {r' : ProviderRegistry E}
      → register r k p ≡ ok r'
      → (later : List (String × Provider E))
      → (get (register_all r' later) k ≡ ok p)
        × ((q : Provider E) → register (register_all r' later) k q ≡ err Error.duplicate_provider)
  register_twice r k p {r' = r'} h later =
      let kept = registered-kept r' k p later (register-get r k p h).2 in
      (kept, λ q. taken (register_all r' later) k p q kept)
