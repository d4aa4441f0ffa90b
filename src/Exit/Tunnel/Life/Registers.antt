-- ===== src/Exit/Tunnel/Life/Registers.antt =====
-- `connectAndRegister` of internal/exit/tunnel.go takes the steps of the tunnel's step relation.
use token_go.Base.{
  ℕ, suc, ◌+◌, Bytes, text, List, [], ◌∷◌, length, Option, none, some, Bool, true, false,
  Bool-cases, Result-cases, Result, ok, err, ◌==◌, inl, inr, ◌≡◌, refl, arith, sym, subst,
}
use token_go.Protocol.{encode, decode, new_register_message, type_register_ack}
use token_go.Protocol.Input.{Reader}
use token_go.Net.Opened.{close_one}
use token_go.Exit.Tunnel.{
  TunnelError, read_ack_failed, unexpected_type, Dialed, Connected, connect_and_register,
  register_on, give_up,
}
use token_go.Exit.Tunnel.Life.{Round, Phase, Tunnel, Own, Run, after_failure}
use token_go.Exit.Tunnel.Life.Invariant.{close_own}

-- Where the goroutine stands behind a call, and what it has open.
abbrev pub Ends : Round → ℕ → Tunnel → Tunnel → Result TunnelError ℕ → Type 0
Ends r b s t (ok c) = (t.phase ≡ Phase.stored r) × (t.conn ≡ some c) × (t.opened ≡ c ∷ [])
Ends r b s t (err e) = (t.phase ≡ after_failure r b) × (t.conn ≡ s.conn) × (t.opened ≡ [])

-- What the network dialed has the next number.
abbrev pub Dials : Option Dialed → ℕ → Type 0
Dials none next = Unit {0}
Dials (some d) next = d.conn ≡ next

-- A call, as a run of the goroutine's own steps. Each connection that was dialed is open, or was
-- closed with a reason.
abbrev pub IsRun : Round → ℕ → Tunnel → Connected → Type 0
IsRun r b s o =
    (t : Tunnel) × (n : ℕ) × Run s t n
    × (length t.opened + length o.closes + s.next ≡ t.next)
    × Ends r b s t o.result

module _ (r : Round) (b : ℕ) (s : Tunnel) (standing : s.phase ≡ Phase.dialing r b)
    (going : s.stopped ≡ false) (none_open : s.opened ≡ []) where
  abbrev dialed : Tunnel
  dialed = record s {
    phase = Phase.opening r b s.next;
    opened = s.next ∷ s.opened;
    next = suc s.next;
  }

  abbrev registering : Tunnel
  registering = record dialed { phase = Phase.registering r b s.next }

  abbrev gave_up : Tunnel
  gave_up = record dialed {
    phase = after_failure r b;
    opened = close_one s.next (s.next ∷ s.opened);
  }

  nothing_left : close_one s.next (s.next ∷ s.opened) ≡ []
  nothing_left = close_own s.next (s.next ∷ s.opened) (inr (rw none_open refl))

  to_dialed : Run s dialed 1
  to_dialed = Run.own Run.here (Own.dial standing going)

  to_registering : Run s registering 2
  to_registering = Run.own to_dialed (Own.open_stream refl going)

  closed_one : length gave_up.opened + 1 + s.next ≡ suc s.next
  closed_one = rw nothing_left (omega arith)

  -- The stream is there, and the registration on it fails.
  refused :
      (written : List Bytes) (reason : Bytes) (e : TunnelError)
      → IsRun r b s (give_up s.next written reason e)
  refused written reason e = (
    gave_up,
    3,
    Run.own to_registering (Own.refused refl),
    closed_one,
    (refl, refl, nothing_left),
  )

  register_on-IsRun :
      (frame : Bytes) (stream : Option (Bool × Reader))
      → IsRun r b s (register_on s.next frame stream)
  unfolding register_on
  register_on-IsRun frame none =
      (gave_up, 2, Run.own to_dialed (Own.not_opened refl), closed_one, (refl, refl, nothing_left))
  register_on-IsRun frame (some (false, stream)) =
      refused (frame ∷ []) (text "write register failed") TunnelError.write_failed
  register_on-IsRun frame (some (true, stream)) = elim (Result-cases (decode stream)) [
    | inr (e, bad) ↦
        is_run (give_up s.next (frame ∷ []) (text "read register ack failed") (read_ack_failed e))
          (rw (bad, register_on) refl)
          (refused (frame ∷ []) (text "read register ack failed") (read_ack_failed e))
    | inl ((ack, rest), read) ↦ elim (Bool-cases (ack.type == type_register_ack)) [
      | inr other ↦
          is_run
            (give_up s.next (frame ∷ []) (text "unexpected message type")
              (unexpected_type ack.type))
            (rw (read, other, register_on) refl)
            (refused (frame ∷ []) (text "unexpected message type") (unexpected_type ack.type))
      | inl same ↦
          is_run (record { result = ok s.next; written = frame ∷ []; closes = [] })
            (rw (read, same, register_on) refl)
            (
              record registering { phase = Phase.stored r; conn = some s.next },
              3,
              Run.own to_registering (Own.acknowledged refl),
              rw none_open (omega arith),
              (refl, refl, rw none_open refl),
            )
    ]
  ]
    where
      is_run :
          (o : Connected)
          → register_on s.next frame (some (true, stream)) ≡ o
          → IsRun r b s o
          → IsRun r b s (register_on s.next frame (some (true, stream)))
      is_run o e run = subst (IsRun r b s) (sym e) run

  -- With the context not cancelled meanwhile and nothing open, `connectAndRegister` is a run of the
  -- tunnel's own steps. If it gives a connection, that is stored and the only one open; if it gives an
  -- error, nothing is open, the stored connection is the old one, and the goroutine is where an error
  -- leads it. Either way it has closed each connection that it dialed and does not leave open.
  pub connect_and_register-IsRun :
      (pub_key_hash key_config : Bytes) (d : Option Dialed)
      → Dials d s.next
      → IsRun r b s (connect_and_register pub_key_hash key_config d)
  unfolding connect_and_register
  connect_and_register-IsRun pub_key_hash key_config none h = (
    record s { phase = after_failure r b },
    1,
    Run.own Run.here (Own.fail standing),
    rw none_open (omega arith),
    (refl, refl, none_open),
  )
  connect_and_register-IsRun pub_key_hash key_config (some d) h =
      rw h (register_on-IsRun (encode (new_register_message pub_key_hash key_config)) d.stream)
