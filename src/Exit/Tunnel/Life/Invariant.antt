-- ===== src/Exit/Tunnel/Life/Invariant.antt =====
-- An invariant of a tunnel's steps: what is open, by where the goroutine stands, and which connections
-- are older than which.
use token_go.Base.{
  ℕ, suc, ◌<◌, List, [], ◌∷◌, ◌++◌, Option, none, some, true, All, ◌⊎◌, inl, inr, ◌≡◌, refl, arith,
}
use token_go.Net.Opened.{close_one, close_stored, listed, is_open-one, All-close_one}
use token_go.Exit.Tunnel.Life.{
  Round, Phase, Tunnel, Own, Other, Run, initial, after_check, after_wait, after_failure, is_over,
}

-- The one connection is open, or has ended.
abbrev pub IsOnly : Option ℕ → List ℕ → Type 0
IsOnly conn opened = (opened ≡ []) ⊎ (opened ≡ listed conn)

-- The only connection that may be open, by where the goroutine stands.
abbrev pub current : Phase → Option ℕ → Option ℕ
current (Phase.opening r b c) conn = some c
current (Phase.probing r b c) conn = some c
current (Phase.registering r b c) conn = some c
current (Phase.checking r b) conn = none
current (Phase.waiting r b) conn = none
current (Phase.dialing r b) conn = none
current _ conn = conn

-- A connection that is probed or registered is newer than all that are served.
abbrev pub IsFresh : Phase → ℕ → List ℕ → Type 0
IsFresh (Phase.opening r b c) next serving = All (λ d. d < c) serving × (c < next)
IsFresh (Phase.probing r b c) next serving = All (λ d. d < c) serving × (c < next)
IsFresh (Phase.registering r b c) next serving = All (λ d. d < c) serving × (c < next)
IsFresh _ next serving = Unit {0}

abbrev pub Numbered : Option ℕ → ℕ → List ℕ → Type 0
Numbered conn next serving = All (λ d. d < next) (listed conn) × All (λ d. d < next) serving

abbrev pub Inv : Phase → Option ℕ → List ℕ → ℕ → List ℕ → Type 0
Inv phase conn opened next serving =
    IsOnly (current phase conn) opened × IsFresh phase next serving × Numbered conn next serving

pub close_one-IsOnly :
    (c : ℕ) (conn : Option ℕ) (opened : List ℕ)
    → IsOnly conn opened
    → IsOnly conn (close_one c opened)
unfolding close_one
close_one-IsOnly c conn opened (inl e) = inl (rw e)
close_one-IsOnly c none opened (inr e) = inl (rw e)
close_one-IsOnly c (some d) opened (inr e) = rw e (ground arith)

pub close_own : (c : ℕ) (opened : List ℕ) → IsOnly (some c) opened → close_one c opened ≡ []
unfolding close_one
close_own c opened (inl e) = rw e
close_own c opened (inr e) = rw e (ground arith)

pub nothing : (opened : List ℕ) → IsOnly none opened → opened ≡ []
nothing opened (inl e) = e
nothing opened (inr e) = e

over-nothing :
    (conn : Option ℕ) (opened : List ℕ)
    → IsOnly conn opened
    → is_over conn opened ≡ true
    → opened ≡ []
unfolding is_over
over-nothing conn opened (inl e) h = e
over-nothing none opened (inr e) h = e
over-nothing (some c) opened (inr e) h = absurd (cc (is_open-one c))

abbrev pub Invariant : Tunnel → Type 0
Invariant s = Inv s.phase s.conn s.opened s.next s.serving

-- Where nothing is open the goroutine may go on to any of these.
module _ (s : Tunnel) (b : ℕ) (none_open : s.opened ≡ [])
    (numbered : Numbered s.conn s.next s.serving) where
  checked : (r : Round) → Invariant (record s { phase = after_check r b })
  checked Round.first = (inl none_open, tt, numbered)
  checked Round.again = (inl none_open, tt, numbered)

  waited : (r : Round) → Invariant (record s { phase = after_wait r b })
  unfolding after_wait
  waited Round.first = (inl none_open, tt, numbered)
  waited Round.again = (inl none_open, tt, numbered)

  failed : (r : Round) → Invariant (record s { phase = after_failure r b })
  unfolding after_failure
  failed Round.first = (inl none_open, tt, numbered)
  failed Round.again = (inl none_open, tt, numbered)

weaken : (n : ℕ) (ds : List ℕ) → All (λ d. d < n) ds → All (λ d. d < suc n) ds
weaken n [] h = tt
weaken n (d ∷ ds) h = (omega arith, weaken n ds h.1)

weaken_listed :
    (n : ℕ) (conn : Option ℕ) → All (λ d. d < n) (listed conn) → All (λ d. d < suc n) (listed conn)
weaken_listed n none h = tt
weaken_listed n (some c) h = (omega arith, tt)

serve-Numbered :
    (conn : Option ℕ) (next : ℕ) (serving : List ℕ)
    → Numbered conn next serving
    → Numbered conn next (listed conn ++ serving)
serve-Numbered none next serving h = h
serve-Numbered (some c) next serving h = (h.0, (h.0.0, h.1))

Own-Invariant : {s t : Tunnel} → Own s t → Invariant s → Invariant t
Own-Invariant {s} (Own.halt p q) h = let i = rw p at h in (inl (nothing s.opened i.0), tt, i.2)
Own-Invariant {s} (Own.try {r} {b} p q) h =
    let i = rw p at h in checked s b (nothing s.opened i.0) i.2 r
Own-Invariant {s} (Own.elapse {r} {b} p) h =
    let i = rw p at h in waited s b (nothing s.opened i.0) i.2 r
Own-Invariant {s} (Own.wake p q) h = let i = rw p at h in (inl (nothing s.opened i.0), tt, i.2)
Own-Invariant {s} (Own.fail {r} {b} p) h =
    let i = rw p at h in failed s b (nothing s.opened i.0) i.2 r
Own-Invariant {s} (Own.dial p q) h =
    let i = rw p at h in
    (
      inr (rw (nothing s.opened i.0) refl),
      (i.2.1, omega arith),
      (weaken_listed s.next s.conn i.2.0, weaken s.next s.serving i.2.1),
    )
Own-Invariant {s} (Own.probe p q) h =
    let i = rw p at h in
    (
      inr (rw (nothing s.opened i.0) refl),
      (i.2.1, omega arith),
      (weaken_listed s.next s.conn i.2.0, weaken s.next s.serving i.2.1),
    )
Own-Invariant {s} (Own.probed {r} {b} {c} p) h =
    let i = rw p at h in (inl (close_own c s.opened i.0), tt, i.2)
Own-Invariant {s} (Own.not_opened {r} {b} {c} p) h =
    let i = rw p at h in
    failed (record s { opened = close_one c s.opened }) b (close_own c s.opened i.0) i.2 r
Own-Invariant {s} (Own.open_stream p q) h = rw p at h
Own-Invariant {s} (Own.refused {r} {b} {c} p) h =
    let i = rw p at h in
    failed (record s { opened = close_one c s.opened }) b (close_own c s.opened i.0) i.2 r
Own-Invariant {s} (Own.acknowledged p) h = let i = rw p at h in (i.0, tt, ((i.1.1, tt), i.2.1))
Own-Invariant {s} (Own.serve p) h =
    let i = rw p at h in (i.0, tt, serve-Numbered s.conn s.next s.serving i.2)
Own-Invariant {s} (Own.disconnected p o) h =
    let i = rw p at h in (inl (over-nothing s.conn s.opened i.0 o), tt, i.2)
Own-Invariant {s} (Own.unwatch p q) h = rw p at h

unserve-IsFresh :
    (c : ℕ) (phase : Phase) (next : ℕ) (serving : List ℕ)
    → IsFresh phase next serving
    → IsFresh phase next (close_one c serving)
unserve-IsFresh c (Phase.opening r b d) next serving h = (All-close_one d c serving h.0, h.1)
unserve-IsFresh c (Phase.probing r b d) next serving h = (All-close_one d c serving h.0, h.1)
unserve-IsFresh c (Phase.registering r b d) next serving h = (All-close_one d c serving h.0, h.1)
unserve-IsFresh c (Phase.checking r b) next serving h = tt
unserve-IsFresh c (Phase.waiting r b) next serving h = tt
unserve-IsFresh c (Phase.dialing r b) next serving h = tt
unserve-IsFresh c (Phase.stored r) next serving h = tt
unserve-IsFresh c Phase.watching next serving h = tt
unserve-IsFresh c (Phase.returned e) next serving h = tt

pub close_stored-IsOnly :
    (stored conn : Option ℕ) (opened : List ℕ)
    → IsOnly conn opened
    → IsOnly conn (close_stored stored opened)
unfolding close_stored
close_stored-IsOnly none conn opened h = h
close_stored-IsOnly (some c) conn opened h = close_one-IsOnly c conn opened h

unserve-Invariant :
    (c : ℕ) (s : Tunnel) → Invariant s → Invariant (record s { serving = close_one c s.serving })
unserve-Invariant c s h = (
  h.0,
  unserve-IsFresh c s.phase s.next s.serving h.1,
  (h.2.0, All-close_one s.next c s.serving h.2.1),
)

Other-Invariant : {s t : Tunnel} → Other s t → Invariant s → Invariant t
Other-Invariant Other.cancel h = h
Other-Invariant {s} (Other.close q) h =
    (close_stored-IsOnly s.conn (current s.phase s.conn) s.opened h.0, h.1, h.2)
Other-Invariant {s} (Other.lose c) h =
    (close_one-IsOnly c (current s.phase s.conn) s.opened h.0, h.1, h.2)
Other-Invariant {s} (Other.unserve c o) h = unserve-Invariant c s h
Other-Invariant {s} (Other.unserve_stopped c q) h = unserve-Invariant c s h

pub Run-Invariant : {s t : Tunnel} {n : ℕ} → Run s t n → Invariant s → Invariant t
Run-Invariant Run.here h = h
Run-Invariant (Run.own run step) h = Own-Invariant step (Run-Invariant run h)
Run-Invariant (Run.other run step) h = Other-Invariant step (Run-Invariant run h)

pub initial-Invariant : Invariant initial
initial-Invariant = (inl refl, tt, (tt, tt))
