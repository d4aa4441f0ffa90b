-- ===== src/LoadBalancer/Turns.antt =====
-- The round-robin and the random selector of internal/loadbalancer/selector.go.
use token_go.Base.{
  ℕ, ◌+◌, ◌%◌, Bytes, List, [], ◌∷◌, length, get_elem?, none, some, Bool, true, false, Map,
  lookup_or, insert, delete, Result, ok, err, ltb, if◌then◌else◌,
}
use token_go.Net.{AddrInfo}

pub data SelectError : Type 0 where
  no_available_nodes index_out_of_range : SelectError

abbrev pub Failures : Type 0
Failures = Map ℕ

-- A missing key counts as 0.
abbrev pub failures_of : Failures → Bytes → ℕ
failures_of failures id = lookup_or 0 id failures

unfoldable pub keep_healthy : List AddrInfo → Failures → ℕ → List AddrInfo
keep_healthy [] failures threshold = []
keep_healthy (c ∷ cs) failures threshold =
    if ltb (failures_of failures c.id) threshold
    then c ∷ keep_healthy cs failures threshold
    else keep_healthy cs failures threshold

abbrev pub or_all : List AddrInfo → List AddrInfo → List AddrInfo × Bool
or_all candidates [] = (candidates, true)
or_all candidates (c ∷ cs) = (c ∷ cs, false)

-- The Boolean says that the caller has to forget the failures.
unfoldable pub filter_healthy : List AddrInfo → Failures → ℕ → List AddrInfo × Bool
unfolding keep_healthy
filter_healthy candidates failures threshold =
    or_all candidates (keep_healthy candidates failures threshold)

-- Indexing a slice; Go panics out of range.
abbrev pub at_index : List AddrInfo → ℕ → Result SelectError AddrInfo
at_index cs i = elim (get_elem? cs i) [ none ↦ err index_out_of_range | some c ↦ ok c ]

abbrev pub forget_if : Bool → Failures → Failures
forget_if true failures = []
forget_if false failures = failures

abbrev pub report_failure : Bytes → Failures → Failures
report_failure id failures = insert id (failures_of failures id + 1) failures

pub record RoundRobinSelector : Type 0 where
  pub index : ℕ
  pub failures : Failures

unfoldable pub new_round_robin_selector : RoundRobinSelector
new_round_robin_selector = record { index = 0; failures = [] }

abbrev pub next_index : ℕ → List AddrInfo → ℕ
next_index i healthy = (i + 1) % length healthy

unfoldable pub round_robin_select :
    RoundRobinSelector → List AddrInfo → RoundRobinSelector × Result SelectError AddrInfo
unfolding filter_healthy
round_robin_select s [] = (s, err no_available_nodes)
round_robin_select s (c ∷ cs) =
    let (healthy, reset_needed) = filter_healthy (c ∷ cs) s.failures 3 in
    let index = next_index s.index healthy in
    (record { index = index; failures = forget_if reset_needed s.failures }, at_index healthy index)

unfoldable pub round_robin_success : Bytes → RoundRobinSelector → RoundRobinSelector
round_robin_success id s = record s { failures = delete id s.failures }

unfoldable pub round_robin_failure : Bytes → RoundRobinSelector → RoundRobinSelector
round_robin_failure id s = record s { failures = report_failure id s.failures }

pub record RandomSelector : Type 0 where
  pub failures : Failures

unfoldable pub new_random_selector : RandomSelector
new_random_selector = record { failures = [] }

-- `draw` is `rand.IntN`: a number below its argument.
unfoldable pub random_select :
    (ℕ → ℕ) → RandomSelector → List AddrInfo → RandomSelector × Result SelectError AddrInfo
unfolding filter_healthy
random_select draw s [] = (s, err no_available_nodes)
random_select draw s (c ∷ cs) =
    let (healthy, reset_needed) = filter_healthy (c ∷ cs) s.failures 3 in
    (
      record { failures = forget_if reset_needed s.failures },
      at_index healthy (draw (length healthy)),
    )

unfoldable pub random_success : Bytes → RandomSelector → RandomSelector
random_success id s = record s { failures = delete id s.failures }

unfoldable pub random_failure : Bytes → RandomSelector → RandomSelector
random_failure id s = record s { failures = report_failure id s.failures }
