-- ===== src/Exit/Tunnel/Life/Stopping.antt =====
-- `Start` returns once the tunnel is stopped.
use token_go.Base.{ℕ, ◌+◌, ◌≤◌, ◌<◌, Bool, true, false, ◌⊎◌, inl, inr, ◌≡◌, refl, arith, ◌∙◌}
use token_go.Exit.Tunnel.Life.{Round, Phase, Tunnel, Own, Other, Run, after_wait, after_failure}

-- How many steps the goroutine can still take.
abbrev rank : Phase → ℕ
rank (Phase.returned e) = 0
rank (Phase.checking r b) = 1
rank (Phase.waiting Round.first b) = 2
rank (Phase.waiting Round.again b) = 4
rank (Phase.dialing r b) = 3
rank (Phase.opening r b c) = 3
rank (Phase.probing r b c) = 4
rank (Phase.registering r b c) = 4
rank (Phase.stored r) = 3
rank Phase.watching = 2

rank_bound : (phase : Phase) → rank phase ≤ 4
rank_bound (Phase.returned e) = omega arith
rank_bound (Phase.checking r b) = omega arith
rank_bound (Phase.waiting Round.first b) = omega arith
rank_bound (Phase.waiting Round.again b) = omega arith
rank_bound (Phase.dialing r b) = omega arith
rank_bound (Phase.opening r b c) = omega arith
rank_bound (Phase.probing r b c) = omega arith
rank_bound (Phase.registering r b c) = omega arith
rank_bound (Phase.stored r) = omega arith
rank_bound Phase.watching = omega arith

rank-after_failure : (r : Round) (b : ℕ) → rank (after_failure r b) ≤ 2
unfolding after_failure
rank-after_failure Round.first b = omega arith
rank-after_failure Round.again b = omega arith

rank-after_wait : (r : Round) (b : ℕ) → rank (after_wait r b) < rank (Phase.waiting r b)
unfolding after_wait
rank-after_wait Round.first b = omega arith
rank-after_wait Round.again b = omega arith

rank-waiting : (r : Round) (b : ℕ) → 0 < rank (Phase.waiting r b)
rank-waiting Round.first b = omega arith
rank-waiting Round.again b = omega arith

pub going_on : {A : Type 0} (stopped : Bool) → stopped ≡ true → stopped ≡ false → A
going_on stopped e f = absurd cc

Own-rank : {s t : Tunnel} → s.stopped ≡ true → Own s t → rank t.phase < rank s.phase
Own-rank h (Own.halt p q) = rw p (omega arith)
Own-rank {s} h (Own.try p q) = going_on s.stopped h q
Own-rank h (Own.elapse {r} {b} p) = rw p (rank-after_wait r b)
Own-rank h (Own.wake {r} {b} p q) = rw p (rank-waiting r b)
Own-rank h (Own.fail {r} {b} p) = rw p (omega (arith, rank-after_failure r b))
Own-rank {s} h (Own.dial p q) = going_on s.stopped h q
Own-rank {s} h (Own.probe p q) = going_on s.stopped h q
Own-rank h (Own.probed p) = rw p (omega arith)
Own-rank h (Own.not_opened {r} {b} p) = rw p (omega (arith, rank-after_failure r b))
Own-rank {s} h (Own.open_stream p q) = going_on s.stopped h q
Own-rank h (Own.refused {r} {b} p) = rw p (omega (arith, rank-after_failure r b))
Own-rank h (Own.acknowledged p) = rw p (omega arith)
Own-rank h (Own.serve p) = rw p (omega arith)
Own-rank h (Own.disconnected p o) = rw p (omega arith)
Own-rank h (Own.unwatch p q) = rw p (omega arith)

Own-stopped : {s t : Tunnel} → Own s t → t.stopped ≡ s.stopped
Own-stopped (Own.halt p q) = refl
Own-stopped (Own.try p q) = refl
Own-stopped (Own.elapse p) = refl
Own-stopped (Own.wake p q) = refl
Own-stopped (Own.fail p) = refl
Own-stopped (Own.dial p q) = refl
Own-stopped (Own.probe p q) = refl
Own-stopped (Own.probed p) = refl
Own-stopped (Own.not_opened p) = refl
Own-stopped (Own.open_stream p q) = refl
Own-stopped (Own.refused p) = refl
Own-stopped (Own.acknowledged p) = refl
Own-stopped (Own.serve p) = refl
Own-stopped (Own.disconnected p o) = refl
Own-stopped (Own.unwatch p q) = refl

Other-stopped : {s t : Tunnel} → s.stopped ≡ true → Other s t → t.stopped ≡ true
Other-stopped h Other.cancel = refl
Other-stopped h (Other.close q) = h
Other-stopped h (Other.lose c) = h
Other-stopped h (Other.unserve c o) = h
Other-stopped h (Other.unserve_stopped c q) = h

Other-phase : {s t : Tunnel} → Other s t → t.phase ≡ s.phase
Other-phase Other.cancel = refl
Other-phase (Other.close q) = refl
Other-phase (Other.lose c) = refl
Other-phase (Other.unserve c o) = refl
Other-phase (Other.unserve_stopped c q) = refl

pub Run-stopped : {s t : Tunnel} {n : ℕ} → s.stopped ≡ true → Run s t n → t.stopped ≡ true
Run-stopped h Run.here = h
Run-stopped h (Run.own run step) = Own-stopped step ∙ Run-stopped h run
Run-stopped h (Run.other run step) = Other-stopped (Run-stopped h run) step

Run-rank : {s t : Tunnel} {n : ℕ} → s.stopped ≡ true → Run s t n → n + rank t.phase ≤ rank s.phase
Run-rank h Run.here = omega arith
Run-rank h (Run.own run step) = omega (arith, Own-rank (Run-stopped h run) step, Run-rank h run)
Run-rank h (Run.other run step) = rw (Other-phase step) (Run-rank h run)

-- It has returned, or waits for the Relay's acknowledgement.
abbrev pub IsHeld : Phase → Type 0
IsHeld (Phase.returned e) = Unit {0}
IsHeld (Phase.registering r b c) = Unit {0}
IsHeld _ = ⊥

next_step :
    (phase : Phase) (s : Tunnel)
    → s.phase ≡ phase
    → s.stopped ≡ true
    → IsHeld phase ⊎ ((u : Tunnel) × Own s u)
next_step (Phase.returned e) s p h = inl tt
next_step (Phase.probing r b c) s p h = inr (_, Own.probed p)
next_step (Phase.registering r b c) s p h = inl tt
next_step (Phase.checking r b) s p h = inr (_, Own.halt p h)
next_step (Phase.waiting r b) s p h = inr (_, Own.wake p h)
next_step (Phase.dialing r b) s p h = inr (_, Own.fail p)
next_step (Phase.opening r b c) s p h = inr (_, Own.not_opened p)
next_step (Phase.stored r) s p h = inr (_, Own.serve p)
next_step Phase.watching s p h = inr (_, Own.unwatch p h)

-- Once the tunnel is stopped, the goroutine in `Start` takes four steps at most, whatever others do.
-- Until `Start` has returned it can take one, unless it waits for the acknowledgement of the Relay.
pub stop_ends :
    {s t : Tunnel} {n : ℕ}
    → s.stopped ≡ true
    → Run s t n
    → (n ≤ 4) × (IsHeld t.phase ⊎ ((u : Tunnel) × Own t u))
stop_ends {s} {t} h run = (
  omega (arith, Run-rank h run, rank_bound s.phase),
  next_step t.phase t refl (Run-stopped h run),
)
