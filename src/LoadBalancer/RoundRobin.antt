-- ===== src/LoadBalancer/RoundRobin.antt =====
-- Turns of the round-robin selector of internal/loadbalancer/selector.go.
use token_go.Base.{
  ℕ, zero, suc, ◌+◌, ◌%◌, ◌<◌, ◌≤◌, List, [], ◌∷◌, length, false, All, Among, ◌⊎◌, inl, inr, ◌≡◌,
  ◌≢◌, refl, ap, ◌∙◌, arith, ok,
}
use native.Mathlib.Nat.{mod-lt, mod-add-mod}
use token_go.Net.{AddrInfo}
use token_go.LoadBalancer.Turns.{
  RoundRobinSelector, failures_of, filter_healthy, at_index, next_index, round_robin_select,
}
use token_go.LoadBalancer.Healthy.{filter_healthy_lem, at_index-Among, IsHealthy}

length_pos : (cs : List AddrInfo) → cs ≢ [] → 0 < length cs
length_pos [] h = absurd (h refl)
length_pos (c ∷ cs) h = omega arith

chosen :
    (healthy : List AddrInfo) (i : ℕ)
    → healthy ≢ []
    → (d : AddrInfo) × (at_index healthy (next_index i healthy) ≡ ok d) × Among d healthy
chosen healthy i h =
    at_index-Among healthy (next_index i healthy) (mod-lt (i + 1) (length_pos healthy h))

-- A choice among any candidates succeeds. It has failed less than three times in a row; or all have
-- failed three times, and the selector then forgets all failures.
pub round_robin_select_total :
    (s : RoundRobinSelector) (c : AddrInfo) (cs : List AddrInfo)
    → (d : AddrInfo) × ((round_robin_select s (c ∷ cs)).1 ≡ ok d)
      × Among d (c ∷ cs)
      × ((IsHealthy s.failures 3 d × ((round_robin_select s (c ∷ cs)).0.failures ≡ s.failures))
          ⊎ (All (λ a. 3 ≤ failures_of s.failures a.id) (c ∷ cs)
              × ((round_robin_select s (c ∷ cs)).0.failures ≡ [])))
unfolding round_robin_select
round_robin_select_total s c cs = elim (filter_healthy_lem (c ∷ cs) s.failures 3) [
  | inl some_healthy ↦
      let (no_reset, found, kept) = some_healthy in
      let (d, e, m) = chosen (filter_healthy (c ∷ cs) s.failures 3).0 s.index found in
      let both = (kept d).0 m in (d, e, both.0, inl (both.1, rw no_reset refl))
  | inr none_healthy ↦
      let (all, failed) = none_healthy in
      let (d, e, m) = chosen (c ∷ cs) s.index (λ h. cc) in
      (d, rw all e, m, inr (failed, rw all refl))
]

-- The selector after `k` choices among the same candidates.
abbrev pub after_choices : ℕ → RoundRobinSelector → List AddrInfo → RoundRobinSelector
after_choices zero s cs = s
after_choices (suc k) s cs = (round_robin_select (after_choices k s cs) cs).0

after_choices_state :
    (s : RoundRobinSelector) (c : AddrInfo) (cs : List AddrInfo) (k : ℕ)
    → (filter_healthy (c ∷ cs) s.failures 3).1 ≡ false
    → ((after_choices k s (c ∷ cs)).failures ≡ s.failures)
      × (next_index (after_choices k s (c ∷ cs)).index (filter_healthy (c ∷ cs) s.failures 3).0
          ≡ (s.index + k + 1) % length (filter_healthy (c ∷ cs) s.failures 3).0)
unfolding round_robin_select
after_choices_state s c cs zero h = (refl, ground arith)
after_choices_state s c cs (suc k) h =
    let (e, i) = after_choices_state s c cs k h in (rw (e, h) refl, rw (e, i) (step k))
  where
    healthy : List AddrInfo
    healthy = (filter_healthy (c ∷ cs) s.failures 3).0

    step :
        (k : ℕ)
        → ((s.index + k + 1) % length healthy + 1) % length healthy
          ≡ (s.index + suc k + 1) % length healthy
    step k =
        mod-add-mod (s.index + k + 1) (length healthy) 1
        ∙ ap (λ n. n % length healthy) (omega arith)

-- While some candidate is healthy, the choices go round the healthy ones in their order: the choice
-- behind `k` others is the one `k + 1` places after the index, modulo their number.
pub round_robin_turns :
    (s : RoundRobinSelector) (c : AddrInfo) (cs : List AddrInfo) (k : ℕ)
    → (filter_healthy (c ∷ cs) s.failures 3).1 ≡ false
    → (round_robin_select (after_choices k s (c ∷ cs)) (c ∷ cs)).1
      ≡ at_index
          (filter_healthy (c ∷ cs) s.failures 3).0
          ((s.index + k + 1) % length (filter_healthy (c ∷ cs) s.failures 3).0)
unfolding round_robin_select
round_robin_turns s c cs k h = let (e, i) = after_choices_state s c cs k h in rw (e, i) refl
