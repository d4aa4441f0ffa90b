-- ===== src/LoadBalancer/Runs.antt =====
-- The theorems about internal/loadbalancer/selector.go at concrete candidates. The float64 of these
-- examples is a natural number.
use token_go.Base.{
  lookup, ℕ, ◌+◌, ◌<◌, ◌≤◌, ◌%◌, [], ◌∷◌, length, true, false, ok, Among, All, ◌⊎◌, ◌≡◌, ◌≢◌, refl,
  arith,
}
use mathlib.Core.Logic.{◌↔◌}
use token_go.Net.{AddrInfo}
use token_go.LoadBalancer.Samples.{numbers, numbers-ZeroLaws}
use token_go.LoadBalancer.Turns.{
  RoundRobinSelector, round_robin_select, Failures, failures_of, filter_healthy, at_index,
}
use token_go.LoadBalancer.Healthy.{IsHealthy, filter_healthy_lem}
use token_go.LoadBalancer.RoundRobin.{after_choices, round_robin_select_total, round_robin_turns}
use token_go.LoadBalancer.Weighted.{WeightedSelector, weighted_select, total_weight}
use token_go.LoadBalancer.WeightedChoice.{
  weighted_select_total, weighted_select_healthy, weighted_select_zero_draw,
  weighted_select_uniform,
}

abbrev node : ℕ → AddrInfo
node n = record { id = n ∷ []; addrs = [] }

abbrev some_failed : Failures
some_failed = (1 ∷ [], 3) ∷ []

abbrev weighted : WeightedSelector numbers
weighted = record { weights = []; failures = some_failed }

abbrev turns : RoundRobinSelector
turns = record { index = 0; failures = some_failed }

filter_healthy_lem_example :
    (((filter_healthy (node 1 ∷ node 2 ∷ []) some_failed 3).1 ≡ false)
      × ((filter_healthy (node 1 ∷ node 2 ∷ []) some_failed 3).0 ≢ [])
      × ((c : AddrInfo)
          → Among c (filter_healthy (node 1 ∷ node 2 ∷ []) some_failed 3).0
            ↔ (Among c (node 1 ∷ node 2 ∷ []) × IsHealthy some_failed 3 c)))
    ⊎ ((filter_healthy (node 1 ∷ node 2 ∷ []) some_failed 3 ≡ (node 1 ∷ node 2 ∷ [], true))
        × All (λ c. 3 ≤ failures_of some_failed c.id) (node 1 ∷ node 2 ∷ []))
filter_healthy_lem_example = filter_healthy_lem (node 1 ∷ node 2 ∷ []) some_failed 3

round_robin_select_total_example :
    (d : AddrInfo) × ((round_robin_select turns (node 1 ∷ node 2 ∷ [])).1 ≡ ok d)
    × Among d (node 1 ∷ node 2 ∷ [])
    × ((IsHealthy some_failed 3 d
          × ((round_robin_select turns (node 1 ∷ node 2 ∷ [])).0.failures ≡ some_failed))
        ⊎ (All (λ a. 3 ≤ failures_of some_failed a.id) (node 1 ∷ node 2 ∷ [])
            × ((round_robin_select turns (node 1 ∷ node 2 ∷ [])).0.failures ≡ [])))
round_robin_select_total_example = round_robin_select_total turns (node 1) (node 2 ∷ [])

round_robin_turns_example :
    (round_robin_select
      (after_choices 5 turns (node 1 ∷ node 2 ∷ node 3 ∷ []))
      (node 1 ∷ node 2 ∷ node 3 ∷ [])).1
    ≡ at_index
        (filter_healthy (node 1 ∷ node 2 ∷ node 3 ∷ []) some_failed 3).0
        ((0 + 5 + 1) % length (filter_healthy (node 1 ∷ node 2 ∷ node 3 ∷ []) some_failed 3).0)
unfolding filter_healthy lookup
round_robin_turns_example = round_robin_turns turns (node 1) (node 2 ∷ node 3 ∷ []) 5 refl

weighted_select_total_example :
    (d : AddrInfo) × (weighted_select numbers (λ n. 0) 1 weighted (node 1 ∷ node 2 ∷ []) ≡ ok d)
    × Among d (node 1 ∷ node 2 ∷ [])
weighted_select_total_example =
    weighted_select_total numbers (λ n. 0) 1 weighted (node 1) (node 2 ∷ []) (omega arith)

weighted_select_healthy_example : failures_of some_failed (node 2).id < 3
unfolding weighted_select total_weight lookup
weighted_select_healthy_example =
    weighted_select_healthy numbers numbers-ZeroLaws (λ n. 0) 1 weighted (node 1 ∷ node 2 ∷ [])
      (node 2) refl refl refl refl

weighted_select_zero_draw_example :
    weighted_select numbers (λ n. 0) 0 weighted (node 1 ∷ node 2 ∷ []) ≡ ok (node 1)
unfolding total_weight lookup
weighted_select_zero_draw_example =
    weighted_select_zero_draw numbers numbers-ZeroLaws (λ n. 0) 0 weighted (node 1) (node 2 ∷ [])
      (omega arith) refl refl

weighted_select_uniform_example :
    weighted_select numbers (λ n. 0) 1 weighted (node 1 ∷ []) ≡ at_index (node 1 ∷ []) 0
unfolding lookup
weighted_select_uniform_example =
    weighted_select_uniform numbers numbers-ZeroLaws (λ n. 0) 1 weighted (node 1) []
      (omega arith, tt)
