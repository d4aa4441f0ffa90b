-- ===== src/Relay/Server/Accepting/Drained.antt =====
-- Nothing runs behind the return of `Start`, and a cancelled `Start` returns.
use token_go.Base.{
  ℕ, ◌+◌, ◌≤◌, ◌<◌, List, [], ◌∷◌, Bool, true, false, ◌⊎◌, inl, inr, ◌≡◌, refl, arith, ◌∙◌,
}
use token_go.Net.Opened.{close_one}
use token_go.Relay.Server.Accepting.{Phase, Server, Own, Other, Run, new_server}

-- Nothing has been started before the loop, and nothing runs behind it.
abbrev IsQuiet : Phase → List ℕ → Type 0
IsQuiet Phase.binding handlers = handlers ≡ []
IsQuiet (Phase.returned e) handlers = handlers ≡ []
IsQuiet _ handlers = Unit {0}

Own-IsQuiet : {s t : Server} → Own s t → IsQuiet s.phase s.handlers → IsQuiet t.phase t.handlers
Own-IsQuiet (Own.not_bound p) q = rw p at q
Own-IsQuiet (Own.bind p) q = tt
Own-IsQuiet (Own.halt p c) q = tt
Own-IsQuiet (Own.go_on p c) q = tt
Own-IsQuiet (Own.accept p l) q = tt
Own-IsQuiet (Own.give_up p c) q = tt
Own-IsQuiet (Own.retry p c) q = tt
Own-IsQuiet (Own.add p) q = tt
Own-IsQuiet (Own.drained p h) q = h

finish-IsQuiet :
    (c : ℕ) (phase : Phase) (handlers : List ℕ)
    → IsQuiet phase handlers
    → IsQuiet phase (close_one c handlers)
unfolding close_one
finish-IsQuiet c Phase.binding handlers q = rw q
finish-IsQuiet c (Phase.returned e) handlers q = rw q
finish-IsQuiet c Phase.checking handlers q = tt
finish-IsQuiet c Phase.accepting handlers q = tt
finish-IsQuiet c (Phase.adding d) handlers q = tt
finish-IsQuiet c Phase.draining handlers q = tt

Other-IsQuiet : {s t : Server} → Other s t → IsQuiet s.phase s.handlers → IsQuiet t.phase t.handlers
Other-IsQuiet Other.cancel q = q
Other-IsQuiet (Other.close l) q = q
Other-IsQuiet {s} (Other.finish c) q = finish-IsQuiet c s.phase s.handlers q

Run-IsQuiet :
    {s t : Server} {n : ℕ} → Run s t n → IsQuiet s.phase s.handlers → IsQuiet t.phase t.handlers
Run-IsQuiet Run.here q = q
Run-IsQuiet (Run.own run step) q = Own-IsQuiet step (Run-IsQuiet run q)
Run-IsQuiet (Run.other run step) q = Other-IsQuiet step (Run-IsQuiet run q)

-- How many steps `Start` can still take.
abbrev rank : Phase → ℕ
rank (Phase.returned e) = 0
rank Phase.draining = 1
rank Phase.checking = 2
rank Phase.binding = 3
rank (Phase.adding c) = 3
rank Phase.accepting = 4

rank_bound : (phase : Phase) → rank phase ≤ 4
rank_bound (Phase.returned e) = omega arith
rank_bound Phase.draining = omega arith
rank_bound Phase.checking = omega arith
rank_bound Phase.binding = omega arith
rank_bound (Phase.adding c) = omega arith
rank_bound Phase.accepting = omega arith

going_on : {A : Type 0} (cancelled : Bool) → cancelled ≡ true → cancelled ≡ false → A
going_on cancelled e f = absurd cc

Own-rank : {s t : Server} → s.cancelled ≡ true → Own s t → rank t.phase < rank s.phase
Own-rank h (Own.not_bound p) = rw p (omega arith)
Own-rank h (Own.bind p) = rw p (omega arith)
Own-rank h (Own.halt p c) = rw p (omega arith)
Own-rank {s} h (Own.go_on p c) = going_on s.cancelled h c
Own-rank h (Own.accept p l) = rw p (omega arith)
Own-rank h (Own.give_up p c) = rw p (omega arith)
Own-rank {s} h (Own.retry p c) = going_on s.cancelled h c
Own-rank h (Own.add p) = rw p (omega arith)
Own-rank h (Own.drained p q) = rw p (omega arith)

Own-cancelled : {s t : Server} → Own s t → t.cancelled ≡ s.cancelled
Own-cancelled (Own.not_bound p) = refl
Own-cancelled (Own.bind p) = refl
Own-cancelled (Own.halt p c) = refl
Own-cancelled (Own.go_on p c) = refl
Own-cancelled (Own.accept p l) = refl
Own-cancelled (Own.give_up p c) = refl
Own-cancelled (Own.retry p c) = refl
Own-cancelled (Own.add p) = refl
Own-cancelled (Own.drained p q) = refl

Other-cancelled : {s t : Server} → s.cancelled ≡ true → Other s t → t.cancelled ≡ true
Other-cancelled h Other.cancel = refl
Other-cancelled h (Other.close l) = h
Other-cancelled h (Other.finish c) = h

Other-phase : {s t : Server} → Other s t → t.phase ≡ s.phase
Other-phase Other.cancel = refl
Other-phase (Other.close l) = refl
Other-phase (Other.finish c) = refl

Run-cancelled : {s t : Server} {n : ℕ} → s.cancelled ≡ true → Run s t n → t.cancelled ≡ true
Run-cancelled h Run.here = h
Run-cancelled h (Run.own run step) = Own-cancelled step ∙ Run-cancelled h run
Run-cancelled h (Run.other run step) = Other-cancelled (Run-cancelled h run) step

Run-rank : {s t : Server} {n : ℕ} → s.cancelled ≡ true → Run s t n → n + rank t.phase ≤ rank s.phase
Run-rank h Run.here = omega arith
Run-rank h (Run.own run step) = omega (arith, Own-rank (Run-cancelled h run) step, Run-rank h run)
Run-rank h (Run.other run step) = rw (Other-phase step) (Run-rank h run)

-- `Start` has returned, and nothing runs, or it waits for handlers that run.
abbrev pub IsDrained : Phase → List ℕ → Type 0
IsDrained (Phase.returned e) handlers = handlers ≡ []
IsDrained Phase.draining [] = ⊥
IsDrained Phase.draining (c ∷ handlers) = Unit {0}
IsDrained _ handlers = ⊥

next_step :
    (phase : Phase) (handlers : List ℕ) (s : Server)
    → s.phase ≡ phase
    → s.handlers ≡ handlers
    → s.cancelled ≡ true
    → IsQuiet phase handlers
    → IsDrained phase handlers ⊎ ((u : Server) × Own s u)
next_step (Phase.returned e) handlers s p l h q = inl q
next_step Phase.draining [] s p l h q = inr (_, Own.drained p l)
next_step Phase.draining (c ∷ handlers) s p l h q = inl tt
next_step Phase.binding handlers s p l h q = inr (_, Own.not_bound p)
next_step Phase.checking handlers s p l h q = inr (_, Own.halt p h)
next_step (Phase.adding c) handlers s p l h q = inr (_, Own.add p)
next_step Phase.accepting handlers s p l h q = inr (_, Own.give_up p h)

-- Once the context of a server is cancelled, `Start` takes four steps at most, whatever others do.
-- Where it can take none, it has returned and no handler runs, or it waits for a handler.
pub cancel_drains :
    {s t : Server} {m n : ℕ}
    → Run new_server s m
    → s.cancelled ≡ true
    → Run s t n
    → (n ≤ 4) × (IsDrained t.phase t.handlers ⊎ ((u : Server) × Own t u))
cancel_drains {s} {t} before h run = (
  omega (arith, Run-rank h run, rank_bound s.phase),
  next_step t.phase t.handlers t refl refl (Run-cancelled h run)
      (Run-IsQuiet run (Run-IsQuiet before refl)),
)

-- What `Start` leaves when it returns: it stays so.
returned_rests : {s t : Server} {e : Bool} {A : Type 0} → s.phase ≡ Phase.returned e → Own s t → A
returned_rests r (Own.not_bound p) = absurd (cc (r, p))
returned_rests r (Own.bind p) = absurd (cc (r, p))
returned_rests r (Own.halt p c) = absurd (cc (r, p))
returned_rests r (Own.go_on p c) = absurd (cc (r, p))
returned_rests r (Own.accept p l) = absurd (cc (r, p))
returned_rests r (Own.give_up p c) = absurd (cc (r, p))
returned_rests r (Own.retry p c) = absurd (cc (r, p))
returned_rests r (Own.add p) = absurd (cc (r, p))
returned_rests r (Own.drained p h) = absurd (cc (r, p))

stays_returned :
    {s t : Server} {n : ℕ} {e : Bool}
    → s.phase ≡ Phase.returned e
    → Run s t n
    → t.phase ≡ Phase.returned e
stays_returned r Run.here = r
stays_returned r (Run.own run step) = returned_rests (stays_returned r run) step
stays_returned r (Run.other run step) = Other-phase step ∙ stays_returned r run

-- Where `Start` has returned, no connection is handled, and none will be, whatever others do.
pub returned_quiet :
    {s t : Server} {m n : ℕ} {e : Bool}
    → Run new_server s m
    → s.phase ≡ Phase.returned e
    → Run s t n
    → t.handlers ≡ []
returned_quiet {t} before r run =
    let q : IsQuiet t.phase t.handlers = Run-IsQuiet run (Run-IsQuiet before refl) in
    rw (stays_returned r run) at q
