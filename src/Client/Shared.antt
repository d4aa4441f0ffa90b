-- ===== src/Client/Shared.antt =====
-- The connection of internal/client/client.go when several goroutines use the Client: `getConnection`,
-- `Connect` and `Close` in any order. `connMu` makes each of its critical sections one step; at most
-- one goroutine holds `reconnectMu`, and where that one stands is the phase, whichever it is.
pub mod Single
mod Runs
use token_go.Base.{ℕ, suc, List, [], ◌∷◌, Option, none, some, Bool, true, false, if◌then◌else◌, ◌≡◌}
use token_go.Net.Opened.{close_stored}

-- Where the holder of `reconnectMu` stands.
pub data Phase : Type 0 where
  -- Nobody holds it.
  released : Phase
  -- In front of the second check of `getConnection`.
  checking : Phase
  -- In front of the first critical section of `connect`.
  clearing : Phase
  -- In the discovery and the dial.
  dialing : Phase
  -- In front of the critical section of `connectToAddr`, with its new connection.
  dialed : (conn : ℕ) → Phase
  -- In front of the last critical section of `getConnection`.
  stored : Phase

-- The stored connection, which connections the Client has opened and not closed, how many it has
-- opened, and which of them the network has ended.
pub record Shared : Type 0 where
  pub conn : Option ℕ
  pub opened : List ℕ
  pub next : ℕ
  pub ended : ℕ → Bool
  pub phase : Phase

abbrev pub initial : Shared
initial = record { conn = none; opened = []; next = 0; ended = λ c. false; phase = released }

-- The check `c.conn != nil` and that its context is not done.
unfoldable pub usable : Option ℕ → (ℕ → Bool) → Option ℕ
usable none ended = none
usable (some c) ended = if ended c then none else some c

-- A step of some goroutine, and what a call of `getConnection` returns in it, if it does.
pub data Turn (s : Shared) : Shared → Option (Option ℕ) → Type 0 where
  -- The fast path.
  fast : {c : ℕ} → usable s.conn s.ended ≡ some c → Turn s s (some (some c))
  -- The fast path has failed, and the goroutine gets `reconnectMu`.
  enter : s.phase ≡ released → Turn s (record s { phase = checking }) none
  -- `Connect` gets it.
  enter_connect : s.phase ≡ released → Turn s (record s { phase = clearing }) none
  recheck_hit :
      {c : ℕ}
      → s.phase ≡ checking
      → usable s.conn s.ended ≡ some c
      → Turn s (record s { phase = released }) (some (some c))
  recheck_miss :
      s.phase ≡ checking
      → usable s.conn s.ended ≡ none
      → Turn s (record s { phase = clearing }) none
  clear :
      s.phase ≡ clearing
      → Turn s
          (record s { conn = none; opened = close_stored s.conn s.opened; phase = dialing })
          none
  dial_failed : s.phase ≡ dialing → Turn s (record s { phase = released }) none
  dial_ok :
      s.phase ≡ dialing
      → Turn s
          (record s { opened = s.next ∷ s.opened; next = suc s.next; phase = dialed s.next })
          none
  store : {c : ℕ} → s.phase ≡ dialed c → Turn s (record s { conn = some c; phase = stored }) none
  -- The end of `getConnection`; `Connect` does not read the connection.
  read : s.phase ≡ stored → Turn s (record s { phase = released }) (some s.conn)
  done : s.phase ≡ stored → Turn s (record s { phase = released }) none
  close : Turn s (record s { conn = none; opened = close_stored s.conn s.opened }) none
  -- The network ends a connection.
  lose : (ended : ℕ → Bool) → Turn s (record s { ended = ended }) none

pub data Reachable : Shared → Type 0 where
  begin : Reachable initial
  turn : {s t : Shared} {r : Option (Option ℕ)} → Reachable s → Turn s t r → Reachable t
