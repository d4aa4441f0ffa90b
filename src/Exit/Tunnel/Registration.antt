-- ===== src/Exit/Tunnel/Registration.antt =====
-- What `connectAndRegister` of internal/exit/tunnel.go leaves behind, and its Relay's side of it.
use token_go.Base.{
  ℕ, Bytes, text, List, [], ◌∷◌, Option, none, some, Bool, true, false, ok, err, ◌≡◌, refl, ◌⊎◌,
  inl, inr, Result-cases, Bool-cases, ◌==◌,
}
use token_go.Protocol.Input.{Reader}
use token_go.Protocol.{Message, decode, encode, type_register_ack, new_register_message}
use token_go.Relay.Registry.{Close}
use token_go.Exit.Tunnel.{
  TunnelError, Connected, Dialed, connect_and_register, register_on, write_failed, read_ack_failed,
  unexpected_type, open_stream_failed,
}

-- What a failed registration closes.
abbrev pub IsClosed : ℕ → List Close → Type 0
IsClosed conn closes =
    (reason : Bytes) × (closes ≡ record { conn = conn; code = 1; reason = reason } ∷ [])

-- A registration that stores its connection was acknowledged on the stream.
abbrev pub IsRegistered : ℕ → Bytes → Option (Bool × Reader) → Connected → Type 0
IsRegistered conn frame stream c =
    (input : Reader) × (ack : Message) × (rest : Reader) × (stream ≡ some (true, input))
    × (decode input ≡ ok (ack, rest))
    × ((ack.type == type_register_ack) ≡ true)
    × (c ≡ record { result = ok conn; written = frame ∷ []; closes = [] })

abbrev pub IsGivenUp : ℕ → Connected → Type 0
IsGivenUp conn c = (e : TunnelError) × (c.result ≡ err e) × IsClosed conn c.closes

register_on_lem :
    (conn : ℕ) (frame : Bytes) (stream : Option (Bool × Reader))
    → IsRegistered conn frame stream (register_on conn frame stream)
      ⊎ IsGivenUp conn (register_on conn frame stream)
unfolding register_on
register_on_lem conn frame none = inr (open_stream_failed, refl, (text "open stream failed", refl))
register_on_lem conn frame (some (false, input)) =
    inr (write_failed, refl, (text "write register failed", refl))
register_on_lem conn frame (some (true, input)) = elim (Result-cases (decode input)) [
  | inr (e, h) ↦ inr (
    read_ack_failed e,
    rw (h, register_on) refl,
    (text "read register ack failed", rw (h, register_on) refl),
  )
  | inl ((ack, rest), h) ↦ elim (Bool-cases (ack.type == type_register_ack)) [
    | inl is_ack ↦ inl (input, ack, rest, refl, h, is_ack, rw (h, register_on, is_ack) refl)
    | inr other ↦ inr (
      unexpected_type ack.type,
      rw (h, register_on, other) refl,
      (text "unexpected message type", rw (h, register_on, other) refl),
    )
  ]
]

-- A registration on a dialed connection either succeeds, and then its message was written and an
-- acknowledgement read, and the connection is stored and left open; or it fails, and the connection
-- is closed, once.
pub connect_and_register_lem :
    (pub_key_hash key_config : Bytes) (d : Dialed)
    → IsRegistered d.conn
        (encode (new_register_message pub_key_hash key_config))
        d.stream
        (connect_and_register pub_key_hash key_config (some d))
      ⊎ IsGivenUp d.conn (connect_and_register pub_key_hash key_config (some d))
unfolding connect_and_register
connect_and_register_lem pub_key_hash key_config d =
    register_on_lem d.conn (encode (new_register_message pub_key_hash key_config)) d.stream
