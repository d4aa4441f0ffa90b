-- ===== src/Exit/Tunnel/Life/Runs.antt =====
-- Runs of a tunnel, and the theorems about it at them.
use token_go.Base.{text, Option, ◌*◌, ◌≤◌, ◌⊎◌, [], ◌∷◌, none, some, true, false, All, refl}
use token_go.Net.Opened.{close_one, close_stored}
use token_go.Protocol.{encode, new_register_ack_message}
use token_go.Protocol.Input.{eof}
use token_go.Exit.Tunnel.{second, Dialed, connect_and_register}
use token_go.Exit.Tunnel.Life.Registers.{IsRun, connect_and_register-IsRun}
use token_go.Exit.Tunnel.Life.{Round, Phase, Tunnel, Own, Other, Run, initial}
use token_go.Exit.Tunnel.Life.Invariant.{IsOnly}
use token_go.Exit.Tunnel.Life.Open.{IsOwned, one_connection}
use token_go.Exit.Tunnel.Life.Stopping.{IsHeld, stop_ends}
use token_go.Exit.Tunnel.Life.Closing.{closed, stop_closes}

-- The first connection waits for its acknowledgement.
abbrev registering : Tunnel
registering = record initial {
  phase = Phase.registering Round.first (3 * second) 0;
  opened = 0 ∷ [];
  next = 1;
}

to_registering : Run initial registering 3
to_registering =
    Run.own (Run.own (Run.own Run.here (Own.try refl refl)) (Own.dial refl refl))
      (Own.open_stream refl refl)

-- A Relay is probed in `selectRelay`, and the probe's connection is closed.
probed : Run initial (record initial { phase = Phase.dialing Round.first (3 * second); next = 1 }) 3
unfolding close_one
probed =
    Run.own (Run.own (Run.own Run.here (Own.try refl refl)) (Own.probe refl refl)) (Own.probed refl)

-- It has been acknowledged, and is served.
abbrev serving : Tunnel
serving = record registering {
  phase = Phase.watching;
  conn = some 0;
  ready = true;
  serving = 0 ∷ [];
}

to_serving : Run initial serving 5
to_serving = Run.own (Run.own to_registering (Own.acknowledged refl)) (Own.serve refl)

one_connection_example :
    IsOnly (some 0) serving.opened × All (IsOwned serving.conn serving.opened) serving.serving
one_connection_example = one_connection to_serving

abbrev stopping : Tunnel
stopping = record serving { stopped = true }

abbrev ended : Tunnel
ended = record stopping { phase = Phase.returned false }

stop_ends_example : (1 ≤ 4) × (IsHeld (Phase.returned false) ⊎ ((u : Tunnel) × Own ended u))
stop_ends_example = stop_ends {s = stopping} refl (Run.own Run.here (Own.unwatch refl refl))

stop_closes_example : IsOnly none (closed stopping).opened
stop_closes_example =
    stop_closes {s = stopping} (Run.other to_serving Other.cancel) refl
      (Run.own Run.here (Own.unwatch refl refl)) refl

-- `Stop` comes while the first connection waits for its acknowledgement, which then arrives.
abbrev left : Tunnel
left = record registering {
  phase = Phase.returned false;
  conn = some 0;
  stopped = true;
  ready = true;
  serving = 0 ∷ [];
}

left_open : Run initial left 6
unfolding close_stored
left_open =
    Run.own
      (Run.own
        (Run.own (Run.other (Run.other to_registering Other.cancel) (Other.close refl))
          (Own.acknowledged refl))
        (Own.serve refl))
      (Own.unwatch refl refl)

-- The Relay's acknowledgement can be read.
abbrev dialing : Tunnel
dialing = record initial { phase = Phase.dialing Round.first (3 * second) }

abbrev acknowledged : Option Dialed
acknowledged = some (record {
  conn = 0;
  stream = some (true, record { pending = encode (new_register_ack_message []); ending = eof });
})

connect_and_register-IsRun_example :
    IsRun Round.first
      (3 * second)
      dialing
      (connect_and_register (text "hash") (7 ∷ []) acknowledged)
connect_and_register-IsRun_example =
    connect_and_register-IsRun Round.first (3 * second) dialing refl refl refl (text "hash")
      (7 ∷ []) acknowledged refl
