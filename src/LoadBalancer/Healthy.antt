-- ===== src/LoadBalancer/Healthy.antt =====
-- Which candidates internal/loadbalancer/selector.go leaves in the choice.
use token_go.Base.{
  ℕ, zero, suc, ok, ◌<◌, ◌≤◌, List, [], ◌∷◌, length, true, false, All, Among, ◌⊎◌, inl, inr, ◌≡◌,
  ◌≢◌, refl, arith,
}
use mathlib.Core.Logic.{◌↔◌}
use token_go.Net.{AddrInfo}
use token_go.LoadBalancer.Turns.{
  Failures, failures_of, keep_healthy, filter_healthy, or_all, at_index,
}

abbrev pub IsHealthy : Failures → ℕ → AddrInfo → Type 0
IsHealthy failures threshold c = failures_of failures c.id < threshold

keep_healthy_only :
    (cs : List AddrInfo) (failures : Failures) (t : ℕ) (c : AddrInfo)
    → Among c (keep_healthy cs failures t)
    → Among c cs × IsHealthy failures t c
unfolding keep_healthy
keep_healthy_only [] failures t c m = absurd m
keep_healthy_only (d ∷ cs) failures t c m = ground (arith, keep_healthy_only cs failures t c)

keep_healthy_all :
    (cs : List AddrInfo) (failures : Failures) (t : ℕ) (c : AddrInfo)
    → Among c cs
    → IsHealthy failures t c
    → Among c (keep_healthy cs failures t)
unfolding keep_healthy
keep_healthy_all [] failures t c m h = absurd m
keep_healthy_all (d ∷ cs) failures t c m h = ground (arith, keep_healthy_all cs failures t c)

keep_healthy-nil :
    (cs : List AddrInfo) (failures : Failures) (t : ℕ)
    → keep_healthy cs failures t ≡ []
    → All (λ c. t ≤ failures_of failures c.id) cs
unfolding keep_healthy
keep_healthy-nil [] failures t e = tt
keep_healthy-nil (c ∷ cs) failures t e = ground (arith, keep_healthy-nil cs failures t)

-- Either some candidates have fewer failures than the threshold: then exactly those are left. Or
-- none has: then all candidates are left, in their order, and the failures are to be forgotten.
pub filter_healthy_lem :
    (cs : List AddrInfo) (failures : Failures) (t : ℕ)
    → (((filter_healthy cs failures t).1 ≡ false)
        × ((filter_healthy cs failures t).0 ≢ [])
        × ((c : AddrInfo)
            → Among c (filter_healthy cs failures t).0 ↔ (Among c cs × IsHealthy failures t c)))
      ⊎ ((filter_healthy cs failures t ≡ (cs, true)) × All (λ c. t ≤ failures_of failures c.id) cs)
unfolding filter_healthy
filter_healthy_lem cs failures t = split (keep_healthy cs failures t) refl
  where
    split :
        (kept : List AddrInfo)
        → keep_healthy cs failures t ≡ kept
        → (((or_all cs (keep_healthy cs failures t)).1 ≡ false)
            × ((or_all cs (keep_healthy cs failures t)).0 ≢ [])
            × ((c : AddrInfo)
                → Among c (or_all cs (keep_healthy cs failures t)).0
                  ↔ (Among c cs × IsHealthy failures t c)))
          ⊎ ((or_all cs (keep_healthy cs failures t) ≡ (cs, true))
              × All (λ c. t ≤ failures_of failures c.id) cs)
    split [] e = inr (rw e refl, keep_healthy-nil cs failures t e)
    split (d ∷ ds) e = inl (
      rw e refl,
      rw e (λ h. cc),
      λ c. (
        λ m. keep_healthy_only cs failures t c (rw e (rw e at m)),
        λ p. rw e (rw e at (keep_healthy_all cs failures t c p.0 p.1)),
      ),
    )

-- An index in range gives a candidate.
pub at_index-Among :
    (cs : List AddrInfo) (i : ℕ)
    → i < length cs
    → (c : AddrInfo) × (at_index cs i ≡ ok c) × Among c cs
at_index-Among [] i h = elim h [ ]
at_index-Among (c ∷ cs) zero h = (c, refl, inl refl)
at_index-Among (c ∷ cs) (suc i) h =
    let (d, e, m) = at_index-Among cs i (omega arith) in (d, e, inr m)
