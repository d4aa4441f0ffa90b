-- ===== src/Relay/Server/Admit.antt =====
-- Admission of Exits, and dispatch, in internal/relay/quic_server.go.
use token_go.Base.{
  false, err, ap, sym, ◌∙◌, ℕ, Bytes, text, List, [], ◌∷◌, Option, none, some, Bool, true, ok,
  lookup, lookup-insert, ite, bytes_discrete, ◌≡◌, ◌≢◌, refl, arith, ◌⊎◌, inl, inr, Result-cases,
  ℕ_discrete, Bool-cases,
}
use token_go.Protocol.Input.{Reader}
use token_go.Protocol.{
  Message, DecodeError, decode, encode, type_register, new_register_ack_message,
}
use token_go.Relay.Registry.{Registry, lookup_conn, register}
use token_go.Relay.Registry.Lookups.{superseded, register_lem}
use token_go.Relay.Server.{reject, error_frame, admit, handle_exit_connection}

-- The stream brought a registration for a hash, and the acknowledgement could be written.
abbrev pub Registers : Bool → Option Reader → Bytes → Bytes → Type 0
Registers ack_ok stream hash key_config =
    (input : Reader) × (rest : Reader) × (stream ≡ some input)
    × (decode input
        ≡ ok (record { type = type_register; target = hash; payload = key_config }, rest))
    × (hash ≢ [])
    × (ack_ok ≡ true)

-- The hash has this connection, with the key configuration and a heartbeat of now; every other hash
-- has what it had.
abbrev pub IsAdded : ℕ → Bytes → ℕ → Bytes → Registry → Registry → Type 0
IsAdded now hash conn key_config r reg =
    (j : Bytes)
    → lookup j reg.entries
      ≡ ite (bytes_discrete hash j)
          (some (record {
            pub_key_hash = hash;
            conn = conn;
            key_config = key_config;
            registered_at = now;
            last_heartbeat = now;
          }))
          (lookup j r.entries)

register-IsAdded :
    (now : ℕ) (hash : Bytes) (conn : ℕ) (key_config : Bytes) (r : Registry)
    → IsAdded now hash conn key_config r (register now hash conn key_config r).0
unfolding register
register-IsAdded now hash conn key_config r j = lookup-insert hash j _ r.entries

admit_lem :
    (now conn : ℕ) (ack_ok : Bool) (r : Registry) (msg : Message)
    → ((msg.type ≡ type_register)
        × (msg.target ≢ [])
        × (ack_ok ≡ true)
        × (admit now conn ack_ok r msg ≡ record {
          registry = (register now msg.target conn msg.payload r).0;
          written = encode (new_register_ack_message []) ∷ [];
          closes = superseded (lookup_conn msg.target r);
          session = some msg.target;
        }))
      ⊎ ((written : List Bytes) × (reason : Bytes) × ((msg.type ≢ type_register)
            ⊎ (msg.target ≡ [])
            ⊎ (ack_ok ≡ false))
          × (admit now conn ack_ok r msg ≡ reject r conn written reason))
unfolding admit
admit_lem now conn ack_ok r msg = elim (ℕ_discrete msg.type type_register) [
  | no other ↦ inr (
    error_frame (text "expected register message") ∷ [],
    text "unexpected message type",
    inl other,
    ground arith,
  )
  | yes is_register ↦ elim (bytes_discrete msg.target []) [
    | yes nameless ↦ inr (
      error_frame (text "missing pubKeyHash") ∷ [],
      text "missing pubKeyHash",
      inr (inl nameless),
      ground arith,
    )
    | no named ↦ elim (Bool-cases ack_ok) [
      | inl acked ↦ inl (
        is_register,
        named,
        acked,
        ground (arith, register_lem now msg.target msg.target conn msg.payload r),
      )
      | inr lost ↦ inr (
        encode (new_register_ack_message []) ∷ [],
        text "send register ack failed",
        inr (inr lost),
        ground arith,
      )
    ]
  ]
]

nothing_came : (ack_ok : Bool) (hash key_config : Bytes) → ¬ (Registers ack_ok none hash key_config)
nothing_came ack_ok hash key_config (input, rest, same, read, named, acked) = absurd cc

unreadable :
    (ack_ok : Bool) (input : Reader) (e : DecodeError)
    → decode input ≡ err e
    → (hash key_config : Bytes) → ¬ (Registers ack_ok (some input) hash key_config)
unreadable ack_ok input e h hash key_config (input', rest, same, read, named, acked) = absurd cc

unfit :
    (ack_ok : Bool) (input rest : Reader) (msg : Message)
    → decode input ≡ ok (msg, rest)
    → (msg.type ≢ type_register) ⊎ (msg.target ≡ []) ⊎ (ack_ok ≡ false)
    → (hash key_config : Bytes) → ¬ (Registers ack_ok (some input) hash key_config)
unfit ack_ok input rest msg h why hash key_config (input', rest', same, read, named, acked) =
    let parsed : msg ≡ record { type = type_register; target = hash; payload = key_config } = cc in
    elim why [
      | inl other ↦ absurd (other (ap (λ m. m.type) parsed))
      | inr (inl nameless) ↦ absurd (named (sym (ap (λ m. m.target) parsed) ∙ nameless))
      | inr (inr lost) ↦ absurd cc
    ]

-- An Exit connection is admitted if it brings a registration message with a hash, whose
-- acknowledgement can be written; then the registry has for the hash this connection, the key
-- configuration of the message and the time, and for every other hash what it had, and only the
-- connection that it replaces is closed. Otherwise the registry stays as it is, and this connection
-- alone is closed, with code 1.
pub exit_connection_lem :
    (now conn : ℕ) (ack_ok : Bool) (r : Registry) (stream : Option Reader)
    → ((hash : Bytes) × (key_config : Bytes) × (reg : Registry) × Registers ack_ok stream hash
          key_config
        × IsAdded now hash conn key_config r reg
        × (handle_exit_connection now conn ack_ok r stream ≡ record {
          registry = reg;
          written = encode (new_register_ack_message []) ∷ [];
          closes = superseded (lookup_conn hash r);
          session = some hash;
        }))
      ⊎ ((written : List Bytes) × (reason : Bytes) × ((hash key_config : Bytes)
            → ¬ (Registers ack_ok stream hash key_config))
          × (handle_exit_connection now conn ack_ok r stream ≡ record {
            registry = r;
            written = written;
            closes = record { conn = conn; code = 1; reason = reason } ∷ [];
            session = none;
          }))
unfolding handle_exit_connection
exit_connection_lem now conn ack_ok r none =
    inr ([], text "accept register stream failed", λ k c g. nothing_came ack_ok k c g, refl)
exit_connection_lem now conn ack_ok r (some input) = elim (Result-cases (decode input)) [
  | inr (e, h) ↦ inr (
    [],
    text "read register message failed",
    unreadable ack_ok input e h,
    rw (h, handle_exit_connection) refl,
  )
  | inl ((msg, rest), h) ↦ elim (admit_lem now conn ack_ok r msg) [
    | inl (is_register, named, acked, e) ↦ inl (
      msg.target,
      msg.payload,
      (register now msg.target conn msg.payload r).0,
      (input, rest, refl, ground (arith, h, is_register), named, acked),
      register-IsAdded now msg.target conn msg.payload r,
      ground (arith, h, e),
    )
    | inr (written, reason, why, e) ↦
        inr (written, reason, unfit ack_ok input rest msg h why, ground (arith, h, e))
  ]
]
