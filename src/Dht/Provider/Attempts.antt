-- ===== src/Dht/Provider/Attempts.antt =====
-- How often `Register` of internal/dht/provider.go tries, and what is left of a failure.
use token_go.Base.{
  ℕ, zero, suc, ◌+◌, ◌*◌, ◌<◌, ◌≤◌, Bytes, List, [], ◌∷◌, ◌++◌, take, Option, none, some, Bool,
  true, false, ◌≡◌, refl, subst, arith, ◌⊎◌, inl, inr, Bool-cases, ℕ_discrete, ltb, ◌&&◌, ◌==◌,
}
use token_go.Dht.Provider.{
  Provider, ServiceInfo, Attempted, RegisterError, attempt_loop, register_service, start_refresh,
  wait_before, backoff_after, second, max_retries, settle,
}

-- The waits in front of `suc m` attempts from the i-th on.
abbrev waits_for : ℕ → ℕ → ℕ → List ℕ
waits_for zero i backoff = wait_before i backoff
waits_for (suc m) i backoff = wait_before i backoff ++ waits_for m (suc i) (backoff_after i backoff)

-- The context is not done in the wait in front of the i-th attempt.
abbrev pub Goes : (ℕ → Bool) → ℕ → Type 0
Goes stops i = (ltb 0 i && stops i) ≡ false

-- The k-th attempt is the first one to succeed, counted from the i-th.
abbrev pub FirstSuccess : (ℕ → Bool) → (ℕ → Bool) → ℕ → ℕ → Type 0
FirstSuccess provide stops i k =
    (provide k ≡ true)
    × ((j : ℕ) → i ≤ j → j < k → provide j ≡ false)
    × ((j : ℕ) → i ≤ j → j ≤ k → Goes stops j)

-- The context is done in a wait, or no attempt succeeds.
abbrev pub Fails : (ℕ → Bool) → (ℕ → Bool) → ℕ → ℕ → RegisterError → Type 0
Fails provide stops i n RegisterError.cid_failed = ⊥
Fails provide stops i n RegisterError.stopped =
    (j : ℕ) × (i ≤ j) × (j < i + n) × (0 < j) × (stops j ≡ true)
Fails provide stops i n RegisterError.provide_failed =
    (j : ℕ) → i ≤ j → j < i + n → provide j ≡ false

module _ (provide stops : ℕ → Bool) where
  abbrev Ends : ℕ → ℕ → ℕ → Attempted → Type 0
  Ends n i backoff a =
      ((m : ℕ) × (m < n)
        × FirstSuccess provide stops i (i + m)
        × (a ≡ record { waits = waits_for m i backoff; provides = suc m; error = none }))
      ⊎ ((e : RegisterError) × (a.error ≡ some e) × Fails provide stops i n e)

  extend :
      (P : ℕ → Type 0) (i : ℕ) (Q : ℕ → Type 0)
      → P i
      → ((j : ℕ) → suc i ≤ j → Q j → P j)
      → (j : ℕ) → i ≤ j
      → Q j
      → P j
  extend P i Q here later j lo q = elim (ℕ_discrete i j) [
    | yes e ↦ subst P e here
    | no ne ↦ later j (omega arith) q
  ]

  Fails-suc :
      (n i : ℕ) (e : RegisterError)
      → provide i ≡ false
      → Fails provide stops (suc i) n e
      → Fails provide stops i (suc n) e
  Fails-suc n i RegisterError.cid_failed f h = h
  Fails-suc n i RegisterError.stopped f (j, lo, hi, pos, s) = (j, omega arith, omega arith, pos, s)
  Fails-suc n i RegisterError.provide_failed f h =
      extend (λ j. provide j ≡ false) i (λ j. j < i + suc n) f (λ j lo hi. h j lo (omega arith))

  first_here : (i k : ℕ) → Goes stops i → provide i ≡ true → k ≡ i → FirstSuccess provide stops i k
  first_here i k g p e = (
    ground arith,
    λ j lo hi. absurd (omega arith),
    λ j lo hi. subst (Goes stops) (the_same j lo hi) g,
  )
    where
      the_same : (j : ℕ) → i ≤ j → j ≤ k → i ≡ j
      the_same j lo hi = omega arith

  first_later :
      (i k k' : ℕ)
      → provide i ≡ false
      → Goes stops i
      → i < k
      → k ≡ k'
      → FirstSuccess provide stops (suc i) k
      → FirstSuccess provide stops i k'
  first_later i k k' f g lt e (p, fails, goes) = subst (FirstSuccess provide stops i) e (
    p,
    extend (λ j. provide j ≡ false) i (λ j. j < k) f fails,
    extend (Goes stops) i (λ j. j ≤ k) g goes,
  )

  attempt_loop-Ends : (n i backoff : ℕ) → Ends n i backoff (attempt_loop provide stops n i backoff)
  unfolding attempt_loop
  attempt_loop-Ends zero i backoff =
      inr (RegisterError.provide_failed, refl, λ j lo hi. absurd (omega arith))
  attempt_loop-Ends (suc n) i backoff = elim (Bool-cases (ltb 0 i && stops i)) [
    | inl s ↦ inr (
      RegisterError.stopped,
      rw (s, attempt_loop) refl,
      (i, omega arith, omega arith, ground arith, ground arith),
    )
    | inr g ↦ elim (Bool-cases (provide i)) [
      | inl p ↦
          inl (0, omega arith, first_here i (i + 0) g p (omega arith), rw (g, p, attempt_loop) refl)
      | inr f ↦ elim (attempt_loop-Ends n (suc i) (backoff_after i backoff)) [
        | inl (m, lt, first, e) ↦ inl (
          suc m,
          omega arith,
          first_later i (suc i + m) (i + suc m) f g (omega arith) (omega arith) first,
          rw (g, f, attempt_loop, e) refl,
        )
        | inr (e, h, fails) ↦ inr (e, rw (g, f, attempt_loop) h, Fails-suc n i e f fails)
      ]
    ]
  ]

-- The waits in front of the second attempt and the next ones.
abbrev pub retry_waits : List ℕ
retry_waits = (3 * second) ∷ (6 * second) ∷ (12 * second) ∷ (24 * second) ∷ []

waits_for_lem : (k : ℕ) → k < max_retries → waits_for k 0 (3 * second) ≡ take k retry_waits
waits_for_lem zero h = refl
waits_for_lem (suc zero) h = refl
waits_for_lem (suc (suc zero)) h = refl
waits_for_lem (suc (suc (suc zero))) h = refl
waits_for_lem (suc (suc (suc (suc zero)))) h = refl
waits_for_lem (suc (suc (suc (suc (suc k))))) h = absurd (omega arith)

settle_failed :
    (p : Provider) (a : Attempted) (e : RegisterError) → a.error ≡ some e → settle p a ≡ (p, a)
settle_failed p a e h = ground arith

-- If the namespace has a CID and the routing table is not empty, `Register` ends in one of two ways.
-- Either one of five attempts is the first to succeed, after waits of 3, 6, 12 and 24 seconds in
-- front of the others, and the provider is registered with its refresh loop started. Or there is an
-- error, because the context was done in a wait or all five attempts failed; then the provider only
-- keeps the service's description, and no refresh loop is started.
pub register_service_lem :
    (service_cid : Bytes → Option Bytes) (table_size : ℕ) (provide stops : ℕ → Bool)
    (info : ServiceInfo) (p : Provider) (c : Bytes)
    → service_cid p.namespace ≡ some c
    → 0 < table_size
    → ((k : ℕ) × (k < max_retries)
        × FirstSuccess provide stops 0 k
        × (register_service service_cid table_size provide stops info p ≡ (
          start_refresh (record p { service_info = some info }),
          record { waits = take k retry_waits; provides = suc k; error = none },
        )))
      ⊎ ((e : RegisterError) × ((register_service service_cid table_size provide stops info
              p).1.error
            ≡ some e)
          × ((register_service service_cid table_size provide stops info p).0
              ≡ record p { service_info = some info })
          × Fails provide stops 0 max_retries e)
unfolding register_service
register_service_lem service_cid table_size provide stops info p c named h =
    elim (attempt_loop-Ends provide stops max_retries 0 (3 * second)) [
      | inl (k, lt, first, e) ↦ inl (
        k,
        lt,
        subst (FirstSuccess provide stops 0) (omega arith) first,
        rw (named, register_service, filled, e, waits_for_lem k lt) refl,
      )
      | inr (e, failed, fails) ↦
          inr (e, rw (unchanged e failed) failed, rw (unchanged e failed) refl, fails)
    ]
  where
    filled : (table_size == 0) ≡ false
    filled = ground arith

    unchanged :
        (e : RegisterError)
        → (attempt_loop provide stops max_retries 0 (3 * second)).error ≡ some e
        → register_service service_cid table_size provide stops info p ≡ (
          record p { service_info = some info },
          attempt_loop provide stops max_retries 0 (3 * second),
        )
    unchanged e failed =
        rw (named, register_service, filled)
          (settle_failed (record p { service_info = some info }) _ e failed)
