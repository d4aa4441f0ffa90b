-- ===== src/Relay/Sessions.antt =====
-- The Relay's Exit connections over time (internal/relay/quic_server.go, registry.go): the handlers
-- of all connections, the clean-up task and failing requests take steps in any order.
pub mod Live
use token_go.Base.{ℕ, suc, ◌<◌, Bytes, List, [], ◌∷◌, Among, ite, ℕ_discrete, ◌≡◌, ◌≢◌, some, none}
use token_go.Relay.Registry.{
  Registry, register, remove_if_match, update_heartbeat, cleanup, new_registry, lookup_conn,
}
use token_go.Relay.Server.{end_session}

-- `sessions` are the connections whose handler is in its heartbeat loop, with their hashes;
-- connections are numbered in the order in which they are admitted.
pub record Relay : Type 0 where
  pub registry : Registry
  pub sessions : List (ℕ × Bytes)
  pub next_conn : ℕ

unfoldable pub start : Relay
unfolding new_registry
start = record { registry = new_registry; sessions = []; next_conn = 0 }

unfoldable pub leave : ℕ → List (ℕ × Bytes) → List (ℕ × Bytes)
unfolding ℕ_discrete
leave conn [] = []
leave conn ((c, h) ∷ rest) = ite (ℕ_discrete c conn) (leave conn rest) ((c, h) ∷ leave conn rest)

-- `admitted`: a registration was acknowledged. `heartbeat`: a session read a heartbeat. `swept`: the
-- clean-up ran. `unreachable`: a request that had looked the connection up, now or before other
-- steps, could not open a stream on it. `left`: a session's handler ran what it deferred.
pub data Step : Relay → Relay → Type 0 where
  admitted :
      (s : Relay) (now : ℕ) (hash key_config : Bytes)
      → Step s (record {
        registry = (register now hash s.next_conn key_config s.registry).0;
        sessions = (s.next_conn, hash) ∷ s.sessions;
        next_conn = suc s.next_conn;
      })
  heartbeat :
      (s : Relay) (now conn : ℕ) (hash : Bytes)
      → Among (conn, hash) s.sessions
      → Step s (record s { registry = update_heartbeat now hash s.registry })
  swept :
      (s : Relay) (now timeout : ℕ)
      → Step s (record s { registry = (cleanup now timeout s.registry).0 })
  unreachable :
      (s : Relay) (hash : Bytes) (conn : ℕ)
      → Step s (record s { registry = (remove_if_match hash conn s.registry).0 })
  left :
      (s : Relay) (conn : ℕ) (hash : Bytes)
      → Among (conn, hash) s.sessions
      → Step s (record s {
        registry = (end_session hash conn s.registry).0;
        sessions = leave conn s.sessions;
      })

pub data Reach : Relay → Type 0 where
  started : Reach start
  after : {s t : Relay} → Reach s → Step s t → Reach t
