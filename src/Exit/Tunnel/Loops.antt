-- ===== src/Exit/Tunnel/Loops.antt =====
-- `heartbeatLoop` and `acceptStreams` of internal/exit/tunnel.go, over what happens to them: a tick or
-- a stream after the other, and then the end of their context or of the connection.
use token_go.Base.{ℕ, Bytes, List, [], ◌∷◌, map, Option, none, some, Bool, ◌≡◌, refl, ◌++◌, All}
use mathlib.Core.Path.{ap₂}
use token_go.Protocol.{encode, new_heartbeat_message}
use token_go.Protocol.Input.{Reader}
use token_go.Crypto.Interface.{Hpke, Gcm, Http}
use token_go.Exit.Handler.{HttpLib, OhttpHandler}
use token_go.Exit.Tunnel.{Format, send_heartbeat, handle_incoming_stream}

-- The connection that is stored at a tick, and what `OpenStreamSync` on it gives.
pub record Tick : Type 0 where
  pub conn : Option ℕ
  pub open_stream : ℕ → Option (Bool × Reader)

-- What each heartbeat wrote; its error is only logged. `none` is the end of the context.
unfoldable pub heartbeat_loop : List (Option Tick) → List (List Bytes)
unfolding send_heartbeat
heartbeat_loop [] = []
heartbeat_loop (none ∷ events) = []
heartbeat_loop (some t ∷ events) = (send_heartbeat t.conn t.open_stream).0 ∷ heartbeat_loop events

-- What comes in on a stream that is accepted, and what the writes and the randomness of its handler are.
pub record Accepted : Type 0 where
  pub stream : Reader
  pub random : ℕ → Option Bytes
  pub accepts : ℕ → Bool

module _ (h : Hpke) (g : Gcm) (w : Http) (lib : HttpLib w) (fmt : Format) where
  -- What each handler wrote. `none` is an error of `AcceptStream`, which ends the loop whatever it is.
  unfoldable pub accept_streams :
      OhttpHandler h g w lib → List (Option Accepted) → List (List Bytes)
  unfolding handle_incoming_stream
  accept_streams s [] = []
  accept_streams s (none ∷ events) = []
  accept_streams s (some a ∷ events) =
      handle_incoming_stream h g w lib fmt s a.random a.accepts a.stream ∷ accept_streams s events

-- A connection is stored at the tick, and its stream opens.
abbrev Sends : Tick → Type 0
Sends t =
    (conn : ℕ) × (write_ok : Bool) × (stream : Reader) × (t.conn ≡ some conn)
    × (t.open_stream conn ≡ some (write_ok, stream))

send_heartbeat-frame :
    (t : Tick)
    → Sends t
    → (send_heartbeat t.conn t.open_stream).0 ≡ encode new_heartbeat_message ∷ []
unfolding send_heartbeat
send_heartbeat-frame t (conn, write_ok, stream, stored, opened) =
    rw (stored, send_heartbeat, opened) refl

-- Until its context ends, the loop writes one heartbeat at each such tick.
heartbeat_loop-frames :
    (ticks : List Tick)
    → All Sends ticks
    → (rest : List (Option Tick))
    → heartbeat_loop (map some ticks ++ none ∷ rest)
      ≡ map (λ _. encode new_heartbeat_message ∷ []) ticks
unfolding heartbeat_loop
heartbeat_loop-frames [] all rest = refl
heartbeat_loop-frames (t ∷ ticks) (sends, all) rest =
    ap₂ ◌∷◌ (send_heartbeat-frame t sends) (heartbeat_loop-frames ticks all rest)
