-- ===== src/Exit/Tunnel/Life/Closing.antt =====
-- What is left open once `Stop` has closed the stored connection and `Start` has returned.
use token_go.Base.{ℕ, List, Option, none, some, Bool, true, inl, ◌≡◌}
use token_go.Net.Opened.{close_one, close_stored}
use token_go.Exit.Tunnel.Life.{
  Round, Phase, Tunnel, Own, Other, Run, initial, after_wait, after_failure,
}
use token_go.Exit.Tunnel.Life.Invariant.{
  IsOnly, current, Invariant, Run-Invariant, initial-Invariant, close_own, close_one-IsOnly,
  close_stored-IsOnly,
}
use token_go.Exit.Tunnel.Life.Stopping.{going_on, Run-stopped}

-- The connection that is being registered.
abbrev pub pending : Phase → Option ℕ
pending (Phase.registering r b c) = some c
pending _ = none

-- What may be open behind `Stop`, while the goroutine goes on.
abbrev Left : Option ℕ → Phase → List ℕ → Type 0
Left p (Phase.opening r b c) opened = IsOnly (some c) opened
Left p (Phase.probing r b c) opened = IsOnly (some c) opened
Left p _ opened = IsOnly p opened

close_current :
    (conn : Option ℕ) (opened : List ℕ)
    → IsOnly conn opened
    → IsOnly none (close_stored conn opened)
unfolding close_stored
close_current none opened i = i
close_current (some c) opened i = inl (close_own c opened i)

module _ (p : Option ℕ) (opened : List ℕ) (b : ℕ) (only : IsOnly p opened) where
  waited : (r : Round) → Left p (after_wait r b) opened
  unfolding after_wait
  waited Round.first = only
  waited Round.again = only

  failed : (r : Round) → Left p (after_failure r b) opened
  unfolding after_failure
  failed Round.first = only
  failed Round.again = only

Own-Left :
    {s t : Tunnel} (p : Option ℕ)
    → s.stopped ≡ true
    → Own s t
    → Left p s.phase s.opened
    → Left p t.phase t.opened
Own-Left p h (Own.halt e q) l = rw e at l
Own-Left {s} p h (Own.try e q) l = going_on s.stopped h q
Own-Left {s} p h (Own.elapse {r} {b} e) l = waited p s.opened b (rw e at l) r
Own-Left p h (Own.wake e q) l = rw e at l
Own-Left {s} p h (Own.fail {r} {b} e) l = failed p s.opened b (rw e at l) r
Own-Left {s} p h (Own.dial e q) l = going_on s.stopped h q
Own-Left {s} p h (Own.probe e q) l = going_on s.stopped h q
Own-Left {s} p h (Own.probed {r} {b} {c} e) l = inl (close_own c s.opened (rw e at l))
Own-Left {s} p h (Own.not_opened {r} {b} {c} e) l =
    failed p (close_one c s.opened) b (inl (close_own c s.opened (rw e at l))) r
Own-Left {s} p h (Own.open_stream e q) l = going_on s.stopped h q
Own-Left {s} p h (Own.refused {r} {b} {c} e) l =
    failed p (close_one c s.opened) b (close_one-IsOnly c p s.opened (rw e at l)) r
Own-Left p h (Own.acknowledged e) l = rw e at l
Own-Left p h (Own.serve e) l = rw e at l
Own-Left p h (Own.disconnected e o) l = rw e at l
Own-Left p h (Own.unwatch e q) l = rw e at l

-- Others only close connections.
kept :
    (keep : List ℕ → List ℕ)
    → ((conn : Option ℕ) (opened : List ℕ) → IsOnly conn opened → IsOnly conn (keep opened))
    → (p : Option ℕ) (phase : Phase) (opened : List ℕ) → Left p phase opened
    → Left p phase (keep opened)
kept keep only p (Phase.opening r b c) opened l = only (some c) opened l
kept keep only p (Phase.probing r b c) opened l = only (some c) opened l
kept keep only p (Phase.registering r b c) opened l = only p opened l
kept keep only p (Phase.checking r b) opened l = only p opened l
kept keep only p (Phase.waiting r b) opened l = only p opened l
kept keep only p (Phase.dialing r b) opened l = only p opened l
kept keep only p (Phase.stored r) opened l = only p opened l
kept keep only p Phase.watching opened l = only p opened l
kept keep only p (Phase.returned e) opened l = only p opened l

Other-Left :
    {s t : Tunnel} (p : Option ℕ) → Other s t → Left p s.phase s.opened → Left p t.phase t.opened
Other-Left p Other.cancel l = l
Other-Left {s} p (Other.close q) l =
    kept (close_stored s.conn) (close_stored-IsOnly s.conn) p s.phase s.opened l
Other-Left {s} p (Other.lose c) l = kept (close_one c) (close_one-IsOnly c) p s.phase s.opened l
Other-Left p (Other.unserve c o) l = l
Other-Left p (Other.unserve_stopped c q) l = l

Run-Left :
    {s t : Tunnel} {n : ℕ} (p : Option ℕ)
    → s.stopped ≡ true
    → Run s t n
    → Left p s.phase s.opened
    → Left p t.phase t.opened
Run-Left p h Run.here l = l
Run-Left p h (Run.own run step) l = Own-Left p (Run-stopped h run) step (Run-Left p h run l)
Run-Left p h (Run.other run step) l = Other-Left p step (Run-Left p h run l)

close-Left :
    (phase : Phase) (conn : Option ℕ) (opened : List ℕ)
    → IsOnly (current phase conn) opened
    → Left (pending phase) phase (close_stored conn opened)
close-Left (Phase.opening r b c) conn opened i = close_stored-IsOnly conn (some c) opened i
close-Left (Phase.probing r b c) conn opened i = close_stored-IsOnly conn (some c) opened i
close-Left (Phase.registering r b c) conn opened i = close_stored-IsOnly conn (some c) opened i
close-Left (Phase.checking r b) conn opened i = close_stored-IsOnly conn none opened i
close-Left (Phase.waiting r b) conn opened i = close_stored-IsOnly conn none opened i
close-Left (Phase.dialing r b) conn opened i = close_stored-IsOnly conn none opened i
close-Left (Phase.stored r) conn opened i = close_current conn opened i
close-Left Phase.watching conn opened i = close_current conn opened i
close-Left (Phase.returned e) conn opened i = close_current conn opened i

-- `Stop` on a stopped tunnel.
abbrev pub closed : Tunnel → Tunnel
closed s = record s { opened = close_stored s.conn s.opened }

-- If `Stop` has cancelled the context and then closes the stored connection in a state that can be
-- reached, nothing is open when `Start` has returned, but for a connection that waits for the Relay's
-- acknowledgement at the time of the close: that one may stay open.
pub stop_closes :
    {s t : Tunnel} {m n : ℕ} {e : Bool}
    → Run initial s m
    → s.stopped ≡ true
    → Run (closed s) t n
    → t.phase ≡ Phase.returned e
    → IsOnly (pending s.phase) t.opened
stop_closes {s} {t} before h behind returned =
    let i : Invariant s = Run-Invariant before initial-Invariant in
    let l : Left (pending s.phase) t.phase t.opened =
      Run-Left (pending s.phase) h behind (close-Left s.phase s.conn s.opened i.0) in
    rw returned at l
