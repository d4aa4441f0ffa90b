-- ===== src/LoadBalancer/Weighted.antt =====
-- The weighted selector of internal/loadbalancer/selector.go. There are no floating point numbers
-- here: float64 and its operations are the parameter `Float`, with `le` for `<=`, which is false on
-- a NaN.
use token_go.Base.{
  ℕ, ◌+◌, Bytes, List, [], ◌∷◌, length, none, some, Bool, Map, lookup, insert, delete, Result, ok,
  err, ltb, leb, if◌then◌else◌,
}
use token_go.Net.{AddrInfo}
use token_go.LoadBalancer.Turns.{
  SelectError, no_available_nodes, Failures, failures_of, at_index, report_failure,
}

pub record Float : Type 1 where
  pub F : Type 0
  pub zero : F
  pub one : F
  pub tenth : F
  pub half : F
  pub ten : F
  pub growth : F
  pub add : F → F → F
  pub mul : F → F → F
  pub div_by : F → ℕ → F
  pub le : F → F → Bool
  pub min : F → F → F
  pub max : F → F → F

module _ (f : Float) where
  open f use {F}

  pub record WeightedSelector : Type 0 where
    pub weights : Map F
    pub failures : Failures

  unfoldable pub new_weighted_selector : WeightedSelector
  new_weighted_selector = record { weights = []; failures = [] }

  unfoldable pub get_weight : WeightedSelector → Bytes → F
  get_weight s id =
      let n = failures_of s.failures id in
      let w : F = elim (lookup id s.weights) [ none ↦ f.one | some w ↦ w ] in
      if leb 3 n then f.zero else if ltb 0 n then f.div_by w (n + 1) else w

  -- The sum that the first loop makes, from the left.
  unfoldable pub total_weight : WeightedSelector → F → List AddrInfo → F
  unfolding get_weight
  total_weight s total [] = total
  total_weight s total (c ∷ cs) = total_weight s (f.add total (get_weight s c.id)) cs

  -- The second loop, over the candidates and their weights; `last` is the answer behind it.
  unfoldable pub pick : WeightedSelector → F → AddrInfo → F → List AddrInfo → AddrInfo
  unfolding get_weight
  pick s r last cumulative [] = last
  pick s r last cumulative (c ∷ cs) =
      let cumulative' = f.add cumulative (get_weight s c.id) in
      let rest = pick s r last cumulative' cs in if f.le r cumulative' then c else rest

  abbrev pub last_of : AddrInfo → List AddrInfo → AddrInfo
  last_of c [] = c
  last_of c (d ∷ cs) = last_of d cs

  -- `draw` is `rand.IntN` and `unit` is what `rand.Float64` returned.
  unfoldable pub weighted_select :
      (ℕ → ℕ) → F → WeightedSelector → List AddrInfo → Result SelectError AddrInfo
  unfolding total_weight pick
  weighted_select draw unit s [] = err no_available_nodes
  weighted_select draw unit s (c ∷ cs) =
      let total = total_weight s f.zero (c ∷ cs) in
      if f.le total f.zero
      then at_index (c ∷ cs) (draw (length (c ∷ cs)))
      else ok (pick s (f.mul unit total) (last_of c cs) f.zero (c ∷ cs))

  unfoldable pub weighted_success : Bytes → WeightedSelector → WeightedSelector
  weighted_success id s = record {
    weights = elim (lookup id s.weights) [
      | none ↦ insert id f.one s.weights
      | some w ↦ insert id (f.min (f.mul w f.growth) f.ten) s.weights
    ];
    failures = delete id s.failures;
  }

  unfoldable pub weighted_failure : Bytes → WeightedSelector → WeightedSelector
  weighted_failure id s = record {
    weights = elim (lookup id s.weights) [
      | none ↦ s.weights
      | some w ↦ insert id (f.max (f.mul w f.half) f.tenth) s.weights
    ];
    failures = report_failure id s.failures;
  }

  unfoldable pub set_weight : Bytes → F → WeightedSelector → WeightedSelector
  set_weight id w s = record s { weights = insert id w s.weights }

  unfoldable pub reset_failures : Bytes → WeightedSelector → WeightedSelector
  reset_failures id s = record s { failures = delete id s.failures }
