-- ===== src/Relay/Server/Accepting/Runs.antt =====
-- Runs of the accept loop, and the theorems about it at them.
use token_go.Base.{◌≤◌, ◌⊎◌, [], ◌∷◌, true, false, ◌≡◌, refl}
use token_go.Net.Opened.{close_one}
use token_go.Relay.Server.Accepting.{Listener, Phase, Server, Own, Other, Run, Stops, new_server}
use token_go.Relay.Server.Accepting.Drained.{IsDrained, cancel_drains, returned_quiet}

-- A connection has been accepted, and is not counted yet.
abbrev accepted : Server
accepted = record new_server {
  phase = Phase.adding 0;
  listener = Listener.bound;
  ready = true;
  next = 1;
}

to_accepted : Run new_server accepted 3
to_accepted =
    Run.own (Run.own (Run.own Run.here (Own.bind refl)) (Own.go_on refl refl))
      (Own.accept refl refl)

abbrev cancelled : Server
cancelled = record accepted { cancelled = true }

-- The connection is handled, and `Start` waits for its handler.
abbrev waiting : Server
waiting = record cancelled { phase = Phase.draining; handlers = 0 ∷ [] }

to_waiting : Run cancelled waiting 2
to_waiting = Run.own (Run.own Run.here (Own.add refl)) (Own.halt refl refl)

cancel_drains_example :
    (2 ≤ 4) × (IsDrained Phase.draining (0 ∷ []) ⊎ ((u : Server) × Own waiting u))
cancel_drains_example = cancel_drains (Run.other to_accepted Other.cancel) refl to_waiting

abbrev over : Server
over = record cancelled { phase = Phase.returned false }

to_over : Run new_server over 6
unfolding close_one
to_over =
    Run.own
      (Run.other
        (Run.own (Run.own (Run.other to_accepted Other.cancel) (Own.add refl)) (Own.halt refl refl))
        (Other.finish 0))
      (Own.drained refl refl)

returned_quiet_example : over.handlers ≡ []
returned_quiet_example = returned_quiet to_over refl Run.here

-- `Stop` returns between `Accept` and `s.wg.Add(1)`, and the connection is handled behind it.
abbrev stopped : Server
stopped = record cancelled { listener = Listener.closed }

stopped-Stops : Stops stopped
stopped-Stops = (refl, refl)

handled_late : Run stopped (record stopped { phase = Phase.checking; handlers = 0 ∷ [] }) 1
handled_late = Run.own Run.here (Own.add refl)

to_stopped : Run new_server stopped 3
to_stopped = Run.other (Run.other to_accepted Other.cancel) (Other.close (λ e. cc))
