-- ===== src/Client/Shared/Runs.antt =====
-- The theorem about several goroutines at one interleaving.
use token_go.Base.{ℕ_discrete, [], ◌∷◌, none, some, false, refl}
use token_go.Client.Shared.{Shared, Phase, Turn, Reachable, initial, usable}
use token_go.Net.Opened.{close_stored, close_one}
use token_go.Client.Shared.Single.{AtMostOne, IsOpen, single_connection}

-- One goroutine has connected, and stands in front of its last critical section.
abbrev connected : Shared
connected = record {
  conn = some 0;
  opened = 0 ∷ [];
  next = 1;
  ended = λ c. false;
  phase = Phase.stored;
}

abbrev cleared : Shared
cleared = record initial { phase = Phase.dialing }

connected-Reachable : Reachable connected
unfolding close_stored
connected-Reachable =
    Reachable.turn
      (Reachable.turn
        (Reachable.turn
          (Reachable.turn (Reachable.turn Reachable.begin (Turn.enter refl))
            (Turn.recheck_miss refl (unfold usable in refl)))
          (Turn.clear refl))
        (Turn.dial_ok refl))
      (Turn.store refl)

abbrev returned : Shared
returned = record connected { phase = Phase.released }

read_connected : Turn connected returned (some (some 0))
read_connected = Turn.read refl

single_connection_example :
    AtMostOne connected.conn connected.opened
    × AtMostOne returned.conn returned.opened
    × IsOpen (some 0) returned.opened
single_connection_example = single_connection connected-Reachable read_connected

-- `Close` may come in between, and then the call returns no connection and no error.
abbrev closed : Shared
closed = record connected { conn = none; opened = [] }

closed-Reachable : Reachable closed
unfolding close_stored close_one ℕ_discrete
closed-Reachable = Reachable.turn connected-Reachable Turn.close

nothing_returned : Turn closed (record closed { phase = Phase.released }) (some none)
nothing_returned = Turn.read refl
