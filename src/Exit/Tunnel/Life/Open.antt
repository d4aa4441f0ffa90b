-- ===== src/Exit/Tunnel/Life/Open.antt =====
-- Which connections a tunnel has open, and which it serves.
use token_go.Base.{
  ℕ, ◌<◌, List, [], ◌∷◌, Option, none, some, false, All, ◌⊎◌, inl, inr, ◌≡◌, arith, ap, dec_lt,
}
use token_go.Net.Opened.{is_open}
use token_go.Exit.Tunnel.Life.{Phase, Tunnel, Run, initial}
use token_go.Exit.Tunnel.Life.Invariant.{
  IsOnly, current, Inv, Invariant, Run-Invariant, initial-Invariant, nothing,
}

-- The connection has ended, or it is the stored one.
abbrev pub IsOwned : Option ℕ → List ℕ → ℕ → Type 0
IsOwned conn opened c = (is_open c opened ≡ false) ⊎ (conn ≡ some c)

none_open-IsOwned :
    (conn : Option ℕ) (opened serving : List ℕ) → opened ≡ [] → All (IsOwned conn opened) serving
unfolding is_open
none_open-IsOwned conn opened [] e = tt
none_open-IsOwned conn opened (c ∷ cs) e = (inl (rw e), none_open-IsOwned conn opened cs e)

stored-IsOwned :
    (conn : Option ℕ) (opened serving : List ℕ)
    → IsOnly conn opened
    → All (IsOwned conn opened) serving
unfolding is_open
stored-IsOwned conn opened serving (inl e) = none_open-IsOwned conn opened serving e
stored-IsOwned none opened serving (inr e) = none_open-IsOwned none opened serving e
stored-IsOwned (some d) opened [] (inr e) = tt
stored-IsOwned (some d) opened (c ∷ cs) (inr e) =
    (one (dec_lt c d) (dec_lt d c), stored-IsOwned (some d) opened cs (inr e))
  where
    one : Dec (c < d) → Dec (d < c) → IsOwned (some d) opened c
    one (yes p) _ = inl (rw e (ground arith))
    one (no p) (yes q) = inl (rw e (ground arith))
    one (no p) (no q) = inr (ap some (omega arith))

fresh-IsOwned :
    (d : ℕ) (conn : Option ℕ) (opened serving : List ℕ)
    → IsOnly (some d) opened
    → All (λ c. c < d) serving
    → All (IsOwned conn opened) serving
unfolding is_open
fresh-IsOwned d conn opened serving (inl e) h = none_open-IsOwned conn opened serving e
fresh-IsOwned d conn opened [] (inr e) h = tt
fresh-IsOwned d conn opened (c ∷ cs) (inr e) h =
    let below = h.0 in (inl (rw e (ground arith)), fresh-IsOwned d conn opened cs (inr e) h.1)

owned :
    (phase : Phase) (conn : Option ℕ) (opened : List ℕ) (next : ℕ) (serving : List ℕ)
    → Inv phase conn opened next serving
    → All (IsOwned conn opened) serving
owned (Phase.opening r b d) conn opened next serving h =
    fresh-IsOwned d conn opened serving h.0 h.1.0
owned (Phase.probing r b d) conn opened next serving h =
    fresh-IsOwned d conn opened serving h.0 h.1.0
owned (Phase.registering r b d) conn opened next serving h =
    fresh-IsOwned d conn opened serving h.0 h.1.0
owned (Phase.checking r b) conn opened next serving h =
    none_open-IsOwned conn opened serving (nothing opened h.0)
owned (Phase.waiting r b) conn opened next serving h =
    none_open-IsOwned conn opened serving (nothing opened h.0)
owned (Phase.dialing r b) conn opened next serving h =
    none_open-IsOwned conn opened serving (nothing opened h.0)
owned (Phase.stored r) conn opened next serving h = stored-IsOwned conn opened serving h.0
owned Phase.watching conn opened next serving h = stored-IsOwned conn opened serving h.0
owned (Phase.returned e) conn opened next serving h = stored-IsOwned conn opened serving h.0

-- However the goroutine in `Start`, callers of `Stop` and the network take turns: nothing is open
-- where the tunnel checks, waits, or chooses or dials a Relay; while it probes a Relay or registers a
-- connection only the probe's or that connection may be open, and else only the stored one. A connection that is served has ended or is the stored one.
pub one_connection :
    {s : Tunnel} {n : ℕ}
    → Run initial s n
    → IsOnly (current s.phase s.conn) s.opened × All (IsOwned s.conn s.opened) s.serving
one_connection {s} run =
    let i : Invariant s = Run-Invariant run initial-Invariant in
    (i.0, owned s.phase s.conn s.opened s.next s.serving i)
