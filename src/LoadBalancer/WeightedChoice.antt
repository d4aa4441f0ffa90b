-- ===== src/LoadBalancer/WeightedChoice.antt =====
-- What the weighted selector of internal/loadbalancer/selector.go picks.
use token_go.Base.{
  ℕ, ◌<◌, ◌≤◌, List, [], ◌∷◌, length, true, false, All, Among, ◌⊎◌, inl, inr, subst, sym, ◌≡◌, refl,
  arith, Bool-cases, ok,
}
use token_go.Net.{AddrInfo}
use token_go.LoadBalancer.Turns.{failures_of, at_index}
use token_go.LoadBalancer.Healthy.{at_index-Among}
use token_go.LoadBalancer.Weighted.{
  Float, WeightedSelector, get_weight, total_weight, pick, last_of, weighted_select,
}

module _ (f : Float) where
  open f use {F}

  last_of-Among : (c : AddrInfo) (cs : List AddrInfo) → Among (last_of f c cs) (c ∷ cs)
  last_of-Among c [] = inl refl
  last_of-Among c (d ∷ cs) = inr (last_of-Among d cs)

  pick-Among :
      (s : WeightedSelector f) (r : F) (last : AddrInfo) (cumulative : F) (cs : List AddrInfo)
      → (pick f s r last cumulative cs ≡ last) ⊎ Among (pick f s r last cumulative cs) cs
  unfolding pick
  pick-Among s r last cumulative [] = inl refl
  pick-Among s r last cumulative (c ∷ cs) =
      ground (arith, pick-Among s r last (f.add cumulative (get_weight f s c.id)) cs)

  -- The choice among any candidates succeeds and is one of them, whatever the weights are (not a
  -- number, or negative, too); without candidates it fails.
  pub weighted_select_total :
      (draw : ℕ → ℕ) (unit : F) (s : WeightedSelector f) (c : AddrInfo) (cs : List AddrInfo)
      → draw (length (c ∷ cs)) < length (c ∷ cs)
      → (d : AddrInfo) × (weighted_select f draw unit s (c ∷ cs) ≡ ok d) × Among d (c ∷ cs)
  unfolding weighted_select
  weighted_select_total draw unit s c cs h =
      let total = total_weight f s f.zero (c ∷ cs) in
      let chosen = pick f s (f.mul unit total) (last_of f c cs) f.zero (c ∷ cs) in
      elim (Bool-cases (f.le total f.zero)) [
        | inl none_left ↦
            let (d, e, m) = at_index-Among (c ∷ cs) (draw (length (c ∷ cs))) h in
            (d, rw none_left e, m)
        | inr some_left ↦ (
          chosen,
          rw some_left refl,
          picked chosen (pick-Among s (f.mul unit total) (last_of f c cs) f.zero (c ∷ cs)),
        )
      ]
    where
      picked : (d : AddrInfo) → (d ≡ last_of f c cs) ⊎ Among d (c ∷ cs) → Among d (c ∷ cs)
      picked d (inl e) = subst (λ x. Among x (c ∷ cs)) (sym e) (last_of-Among c cs)
      picked d (inr m) = m

  -- What float64 addition does at 0, but for the sign of a zero.
  pub record ZeroLaws : Type 0 where
    pub add-zero : (x : F) → f.add x f.zero ≡ x
    pub zero-le-zero : f.le f.zero f.zero ≡ true

  module _ (laws : ZeroLaws) where
    pick_healthy :
        (s : WeightedSelector f) (r : F) (last : AddrInfo) (cumulative : F) (cs : List AddrInfo)
        → f.le r cumulative ≡ false
        → f.le r (total_weight f s cumulative cs) ≡ true
        → failures_of s.failures (pick f s r last cumulative cs).id < 3
    unfolding pick total_weight get_weight
    pick_healthy s r last cumulative [] below above = cc
    pick_healthy s r last cumulative (c ∷ cs) below above = ground (
      arith,
      laws.add-zero cumulative,
      pick_healthy s r last (f.add cumulative (get_weight f s c.id)) cs,
    )

    -- If adding 0 changes no number, some weight is left, and the drawn number is above 0 and at most
    -- the total, then the choice has failed less than three times in a row.
    pub weighted_select_healthy :
        (draw : ℕ → ℕ) (unit : F) (s : WeightedSelector f) (cs : List AddrInfo) (d : AddrInfo)
        → f.le (total_weight f s f.zero cs) f.zero ≡ false
        → f.le (f.mul unit (total_weight f s f.zero cs)) f.zero ≡ false
        → f.le (f.mul unit (total_weight f s f.zero cs)) (total_weight f s f.zero cs) ≡ true
        → weighted_select f draw unit s cs ≡ ok d
        → failures_of s.failures d.id < 3
    unfolding weighted_select
    weighted_select_healthy draw unit s [] d some_left above below e = cc
    weighted_select_healthy draw unit s (c ∷ cs) d some_left above below e =
        let total = total_weight f s f.zero (c ∷ cs) in
        ground
          (arith, pick_healthy s (f.mul unit total) (last_of f c cs) f.zero (c ∷ cs) above below)

    -- The bug: when the drawn number is 0, as `rand.Float64` may return, the first candidate is
    -- picked also after three failures or more, though other candidates have weight left.
    pub weighted_select_zero_draw :
        (draw : ℕ → ℕ) (unit : F) (s : WeightedSelector f) (c : AddrInfo) (cs : List AddrInfo)
        → 3 ≤ failures_of s.failures c.id
        → f.le (total_weight f s f.zero (c ∷ cs)) f.zero ≡ false
        → f.mul unit (total_weight f s f.zero (c ∷ cs)) ≡ f.zero
        → weighted_select f draw unit s (c ∷ cs) ≡ ok c
    unfolding weighted_select pick get_weight
    weighted_select_zero_draw draw unit s c cs excluded some_left zero_draw =
        ground (arith, laws.add-zero f.zero, laws.zero-le-zero)

    total_weight_excluded :
        (s : WeightedSelector f) (total : F) (cs : List AddrInfo)
        → All (λ c. 3 ≤ failures_of s.failures c.id) cs
        → total_weight f s total cs ≡ total
    unfolding total_weight get_weight
    total_weight_excluded s total [] h = refl
    total_weight_excluded s total (c ∷ cs) h =
        ground (arith, laws.add-zero total, total_weight_excluded s total cs h.1)

    -- When every candidate has failed three times, the choice is uniform: the candidate at the index
    -- that was drawn.
    pub weighted_select_uniform :
        (draw : ℕ → ℕ) (unit : F) (s : WeightedSelector f) (c : AddrInfo) (cs : List AddrInfo)
        → All (λ c. 3 ≤ failures_of s.failures c.id) (c ∷ cs)
        → weighted_select f draw unit s (c ∷ cs) ≡ at_index (c ∷ cs) (draw (length (c ∷ cs)))
    unfolding weighted_select
    weighted_select_uniform draw unit s c cs h =
        rw (total_weight_excluded s f.zero (c ∷ cs) h, laws.zero-le-zero)
