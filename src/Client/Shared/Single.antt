-- ===== src/Client/Shared/Single.antt =====
-- The Client has one connection at most: every connection that it dials is the stored one, or closed.
use token_go.Base.{
  ℕ, ◌≤◌, List, [], ◌∷◌, length, Option, none, some, Bool, ◌≡◌, refl, subst, ◌∙◌, arith,
}
use token_go.Client.Shared.{Shared, Phase, Turn, Reachable, usable}
use token_go.Net.Opened.{close_stored, listed, close_listed}

-- What is open, by where the holder stands.
abbrev Holds : Phase → Option ℕ → List ℕ → Type 0
Holds (Phase.dialed c) conn opened = (conn ≡ none) × (opened ≡ c ∷ [])
Holds Phase.dialing conn opened = (conn ≡ none) × (opened ≡ [])
Holds Phase.released conn opened = opened ≡ listed conn
Holds Phase.checking conn opened = opened ≡ listed conn
Holds Phase.clearing conn opened = opened ≡ listed conn
Holds Phase.stored conn opened = opened ≡ listed conn

close-Holds :
    (phase : Phase) (conn : Option ℕ) (opened : List ℕ)
    → Holds phase conn opened
    → Holds phase none (close_stored conn opened)
unfolding close_stored
close-Holds (Phase.dialed c) conn opened (n, o) = (refl, rw n o)
close-Holds Phase.dialing conn opened (n, o) = (refl, rw n o)
close-Holds Phase.released conn opened h = rw h (close_listed conn)
close-Holds Phase.checking conn opened h = rw h (close_listed conn)
close-Holds Phase.clearing conn opened h = rw h (close_listed conn)
close-Holds Phase.stored conn opened h = rw h (close_listed conn)

some_inj : {A : Type 0} {a b : A} → some a ≡ some b → a ≡ b
some_inj e = cc

Turn-Holds :
    {s t : Shared} {r : Option (Option ℕ)}
    → Turn s t r
    → Holds s.phase s.conn s.opened
    → Holds t.phase t.conn t.opened
Turn-Holds (Turn.fast u) h = h
Turn-Holds (Turn.enter p) h = rw p at h
Turn-Holds (Turn.enter_connect p) h = rw p at h
Turn-Holds (Turn.recheck_hit p u) h = rw p at h
Turn-Holds (Turn.recheck_miss p u) h = rw p at h
Turn-Holds {s} (Turn.clear p) h = (refl, rw (rw p at h) (close_listed s.conn))
Turn-Holds (Turn.dial_failed p) h = nothing (rw p at h)
  where
    nothing :
        {conn : Option ℕ} {opened : List ℕ} → Holds Phase.dialing conn opened → opened ≡ listed conn
    nothing (n, o) = rw (n, o) refl
Turn-Holds (Turn.dial_ok p) h = fresh (rw p at h)
  where
    fresh :
        {conn : Option ℕ} {opened : List ℕ} {c : ℕ}
        → Holds Phase.dialing conn opened
        → Holds (Phase.dialed c) conn (c ∷ opened)
    fresh (n, o) = (n, rw o refl)
Turn-Holds (Turn.store p) h = alone (rw p at h)
  where
    alone :
        {conn : Option ℕ} {opened : List ℕ} {c : ℕ}
        → Holds (Phase.dialed c) conn opened
        → opened ≡ c ∷ []
    alone (n, o) = o
Turn-Holds (Turn.read p) h = rw p at h
Turn-Holds (Turn.done p) h = rw p at h
Turn-Holds {s} Turn.close h = close-Holds s.phase s.conn s.opened h
Turn-Holds (Turn.lose ended) h = h

Reachable-Holds : {s : Shared} → Reachable s → Holds s.phase s.conn s.opened
Reachable-Holds Reachable.begin = refl
Reachable-Holds (Reachable.turn reach t) = Turn-Holds t (Reachable-Holds reach)

-- A connection that is there is the one that is open.
abbrev pub IsOpen : Option ℕ → List ℕ → Type 0
IsOpen none opened = Unit {0}
IsOpen (some c) opened = opened ≡ c ∷ []

abbrev pub AtMostOne : Option ℕ → List ℕ → Type 0
AtMostOne conn opened = (length opened ≤ 1) × IsOpen conn opened

listed_one : (conn : Option ℕ) (opened : List ℕ) → opened ≡ listed conn → AtMostOne conn opened
listed_one none opened h = (rw h (omega arith), tt)
listed_one (some d) opened h = (rw h (omega arith), h)

at_most_one :
    (phase : Phase) (conn : Option ℕ) (opened : List ℕ)
    → Holds phase conn opened
    → AtMostOne conn opened
at_most_one (Phase.dialed c) conn opened (n, o) = (rw o (omega arith), rw n tt)
at_most_one Phase.dialing conn opened (n, o) = (rw o (omega arith), rw n tt)
at_most_one Phase.released conn opened h = listed_one conn opened h
at_most_one Phase.checking conn opened h = listed_one conn opened h
at_most_one Phase.clearing conn opened h = listed_one conn opened h
at_most_one Phase.stored conn opened h = listed_one conn opened h

usable-some :
    (conn : Option ℕ) (ended : ℕ → Bool) (c : ℕ) → usable conn ended ≡ some c → conn ≡ some c
unfolding usable
usable-some none ended c h = absurd cc
usable-some (some d) ended c h = ground arith

-- A call returns a connection that is stored, and leaves it so.
returned_stored :
    {s t : Shared} {r : Option (Option ℕ)} {c : ℕ}
    → Turn s t r
    → r ≡ some (some c)
    → (s.conn ≡ some c) × (t.opened ≡ s.opened)
returned_stored {s} {c = c} (Turn.fast u) e = (usable-some s.conn s.ended c (u ∙ some_inj e), refl)
returned_stored (Turn.enter p) e = absurd cc
returned_stored (Turn.enter_connect p) e = absurd cc
returned_stored {s} {c = c} (Turn.recheck_hit p u) e =
    (usable-some s.conn s.ended c (u ∙ some_inj e), refl)
returned_stored (Turn.recheck_miss p u) e = absurd cc
returned_stored (Turn.clear p) e = absurd cc
returned_stored (Turn.dial_failed p) e = absurd cc
returned_stored (Turn.dial_ok p) e = absurd cc
returned_stored (Turn.store p) e = absurd cc
returned_stored (Turn.read p) e = (some_inj e, refl)
returned_stored (Turn.done p) e = absurd cc
returned_stored Turn.close e = absurd cc
returned_stored (Turn.lose ended) e = absurd cc

-- What a call of `getConnection` returns, if it returns a connection.
abbrev pub connection : Option (Option ℕ) → Option ℕ
connection none = none
connection (some conn) = conn

returned_IsOpen :
    {s t : Shared} {r : Option (Option ℕ)}
    → Turn s t r
    → AtMostOne s.conn s.opened
    → IsOpen (connection r) t.opened
returned_IsOpen {r = none} u one = tt
returned_IsOpen {r = some none} u one = tt
returned_IsOpen {s} {r = some (some c)} u one =
    let (here, same) = returned_stored u refl in same ∙ subst (λ o. IsOpen o s.opened) here one.1

-- However goroutines interleave in `getConnection`, `Connect` and `Close`, at most one connection that
-- the Client has opened is not closed, before a step and behind it, and a stored one is that one. If
-- the step is the return of `getConnection` with a connection, that is the one that is open.
pub single_connection :
    {s t : Shared} {r : Option (Option ℕ)}
    → Reachable s
    → Turn s t r
    → AtMostOne s.conn s.opened × AtMostOne t.conn t.opened × IsOpen (connection r) t.opened
single_connection {s} {t} reach u =
    let before = at_most_one s.phase s.conn s.opened (Reachable-Holds reach) in
    (
      before,
      at_most_one t.phase t.conn t.opened (Reachable-Holds (Reachable.turn reach u)),
      returned_IsOpen u before,
    )
