-- ===== src/Relay/Server.antt =====
-- internal/relay/quic_server.go: what the Relay does on each connection and stream.
-- What a QUIC stream delivers is a `Reader`; whether a write or an open succeeds is an argument. A
-- handler returns the registry, the frames that it wrote and the connections it closed; a single
-- answer counts as written whether or not its write, whose error is only logged, succeeds.
-- Log lines are left out, and closing a stream at the end of its handler changes nothing here.
pub mod Accepting
pub mod ClientStreams
pub mod Forward
pub mod Stream
pub mod Admit
use token_go.Base.{
  ℕ, zero, suc, ◌+◌, Bytes, text, List, [], ◌∷◌, length, Option, none, some, Bool, true, false,
  ◌||◌, Result, ok, err, ite, bytes_discrete, ◌==◌, if◌then◌else◌,
}
use token_go.Protocol.Input.{Reader}
use token_go.Protocol.{
  Message, DecodeError, ExitKeyEntry, decode, encode, new_error_message, new_request_message,
  new_stream_request_message, new_register_ack_message, new_heartbeat_ack_message,
  new_exit_keys_response_message, type_request, type_stream_request, type_query_exit_keys,
  type_stream_end, type_error, type_register, type_heartbeat,
}
use token_go.Relay.Registry.{
  Registry, Close, register, lookup_conn, remove_if_match, update_heartbeat, list_exit_keys,
}

-- `exitConn.OpenStreamSync`, whether the write of the request succeeds, and what can be read then.
pub data Opened : Type 0 where
  open_failed : Opened
  opened : Bool → Reader → Opened

pub record Outcome : Type 0 where
  pub registry : Registry
  pub to_client : List Bytes
  pub to_exit : List Bytes

abbrev pub error_frame : Bytes → Bytes
error_frame msg = encode (new_error_message msg)

-- A handler that answers an error and has sent nothing to an Exit.
abbrev pub refuse : Registry → Bytes → Outcome
refuse r msg = record { registry = r; to_client = error_frame msg ∷ []; to_exit = [] }

-- The request was written to the Exit; one frame, from its answer, goes back.
unfoldable pub forward_response : Registry → Bytes → Bool → Reader → Outcome
forward_response r request false answer = record {
  registry = r;
  to_client = error_frame (text "write to exit failed") ∷ [];
  to_exit = request ∷ [];
}
forward_response r request true answer = elim (decode answer) [
  | err e ↦ record {
    registry = r;
    to_client = error_frame (text "read exit response failed") ∷ [];
    to_exit = request ∷ [];
  }
  | ok (resp, rest) ↦ record { registry = r; to_client = encode resp ∷ []; to_exit = request ∷ [] }
]

-- The two forwarding handlers share their first steps: the target, the registry, the Exit's stream.
unfoldable pub with_exit_stream :
    (ℕ → Opened) → Bytes → Registry → (Bool → Reader → Outcome) → Outcome
unfolding bytes_discrete
with_exit_stream open_stream target r forward =
    ite (bytes_discrete target []) (refuse r (text "missing target address"))
      (elim (lookup_conn target r) [
        | none ↦ refuse r (text "exit not found")
        | some exit_conn ↦ elim (open_stream exit_conn) [
          | open_failed ↦
              refuse (remove_if_match target exit_conn r).0 (text "exit connection failed")
          | opened write_ok answer ↦ forward write_ok answer
        ]
      ])

unfoldable pub handle_forward_request : (ℕ → Opened) → Registry → Message → Outcome
unfolding with_exit_stream forward_response
handle_forward_request open_stream r msg =
    with_exit_stream open_stream msg.target r
      (forward_response r (encode (new_request_message [] msg.payload)))

abbrev pub is_final : Message → Bool
is_final m = m.type == type_stream_end || m.type == type_error

-- How the loop ends; the code itself has no fuel to run out of.
pub data Ending : Type 0 where
  read_failed : DecodeError → Ending
  write_failed finished out_of_fuel : Ending

-- The frames that were written to the Client without an error.
pub record Forwarded : Type 0 where
  pub sent : List Bytes
  pub ending : Ending

abbrev pub and_sent : Bytes → Forwarded → Forwarded
and_sent frame f = record f { sent = frame ∷ f.sent }

-- The loop over the frames of the Exit. `accepts i` says whether the i-th write to the Client
-- succeeds. Each round takes a frame off the reader, so its length bounds the rounds: see
-- Relay/Server/Stream.
unfoldable pub stream_loop : ℕ → (ℕ → Bool) → ℕ → Reader → Forwarded
stream_loop zero accepts i answer = record { sent = []; ending = out_of_fuel }
stream_loop (suc fuel) accepts i answer = elim (decode answer) [
  | err e ↦ record { sent = []; ending = read_failed e }
  | ok (chunk, rest) ↦ elim (accepts i) [
    | false ↦ record { sent = []; ending = write_failed }
    | true ↦ elim (is_final chunk) [
      | true ↦ record { sent = encode chunk ∷ []; ending = finished }
      | false ↦ and_sent (encode chunk) (stream_loop fuel accepts (i + 1) rest)
    ]
  ]
]

unfoldable pub stream_response : (ℕ → Bool) → Registry → Bytes → Bool → Reader → Outcome
unfolding stream_loop
stream_response accepts r request false answer = record {
  registry = r;
  to_client = error_frame (text "write to exit failed") ∷ [];
  to_exit = request ∷ [];
}
stream_response accepts r request true answer = record {
  registry = r;
  to_client = (stream_loop (length answer.pending + 1) accepts 0 answer).sent;
  to_exit = request ∷ [];
}

unfoldable pub handle_stream_forward_request :
    (ℕ → Opened) → (ℕ → Bool) → Registry → Message → Outcome
unfolding with_exit_stream stream_response
handle_stream_forward_request open_stream accepts r msg =
    with_exit_stream open_stream msg.target r
      (stream_response accepts r (encode (new_stream_request_message [] msg.payload)))

module _ (marshal : List ExitKeyEntry → Option Bytes) where
  unfoldable pub handle_query : Registry → Outcome
  unfolding new_exit_keys_response_message
  handle_query r = elim (new_exit_keys_response_message marshal (list_exit_keys r)) [
    | none ↦ refuse r (text "failed to serialize exit keys")
    | some resp ↦ record { registry = r; to_client = encode resp ∷ []; to_exit = [] }
  ]

  unfoldable pub dispatch : (ℕ → Opened) → (ℕ → Bool) → Registry → Message → Outcome
  unfolding handle_forward_request handle_stream_forward_request handle_query
  dispatch open_stream accepts r msg =
      if msg.type == type_request
      then handle_forward_request open_stream r msg
      else if msg.type == type_stream_request
      then handle_stream_forward_request open_stream accepts r msg
      else if msg.type == type_query_exit_keys
      then handle_query r
      else refuse r (text "invalid message type")

  -- One stream of a Client connection; a frame that cannot be read gets no answer.
  unfoldable pub handle_stream : (ℕ → Opened) → (ℕ → Bool) → Registry → Reader → Outcome
  unfolding dispatch
  handle_stream open_stream accepts r input = elim (decode input) [
    | err e ↦ record { registry = r; to_client = []; to_exit = [] }
    | ok (msg, rest) ↦ dispatch open_stream accepts r msg
  ]

-- What becomes of a connection that negotiated the protocol of an Exit: `session` is the hash under
-- which its heartbeats are then served.
pub record Admission : Type 0 where
  pub registry : Registry
  pub written : List Bytes
  pub closes : List Close
  pub session : Option Bytes

abbrev pub reject : Registry → ℕ → List Bytes → Bytes → Admission
reject r conn written reason = record {
  registry = r;
  written = written;
  closes = record { conn = conn; code = 1; reason = reason } ∷ [];
  session = none;
}

-- The acknowledgement goes out first, and the connection is registered only if that succeeded.
unfoldable pub admit : ℕ → ℕ → Bool → Registry → Message → Admission
unfolding bytes_discrete
admit now conn ack_ok r msg =
    if msg.type == type_register
    then ite (bytes_discrete msg.target [])
        (reject r conn (error_frame (text "missing pubKeyHash") ∷ []) (text "missing pubKeyHash"))
        (if ack_ok
          then record {
            registry = (register now msg.target conn msg.payload r).0;
            written = encode (new_register_ack_message []) ∷ [];
            closes = (register now msg.target conn msg.payload r).1;
            session = some msg.target;
          }
          else reject r conn (encode (new_register_ack_message []) ∷ [])
              (text "send register ack failed"))
    else reject r conn (error_frame (text "expected register message") ∷ [])
        (text "unexpected message type")

-- `handleExitConnection` up to its heartbeat loop; `none` is a failed `AcceptStream`.
unfoldable pub handle_exit_connection : ℕ → ℕ → Bool → Registry → Option Reader → Admission
unfolding admit
handle_exit_connection now conn ack_ok r none =
    reject r conn [] (text "accept register stream failed")
handle_exit_connection now conn ack_ok r (some stream) = elim (decode stream) [
  | err e ↦ reject r conn [] (text "read register message failed")
  | ok (msg, rest) ↦ admit now conn ack_ok r msg
]

-- One stream of the heartbeat loop, and what the handler defers to its end.
unfoldable pub handle_heartbeat : ℕ → Bytes → Registry → Reader → Registry × List Bytes
handle_heartbeat now pub_key_hash r stream = elim (decode stream) [
  | err e ↦ (r, [])
  | ok (msg, rest) ↦
      if msg.type == type_heartbeat
      then (update_heartbeat now pub_key_hash r, encode new_heartbeat_ack_message ∷ [])
      else (r, [])
]

unfoldable pub end_session : Bytes → ℕ → Registry → Registry × List Close
end_session pub_key_hash conn r = (
  (remove_if_match pub_key_hash conn r).0,
  record { conn = conn; code = 0; reason = text "exit connection closed" } ∷ [],
)

pub data Role : Type 0 where
  exit_role client_role : Role

-- `handleConnection`: the negotiated protocol decides the handler.
unfoldable pub connection_role : Bytes → Role
unfolding bytes_discrete
connection_role alpn = ite (bytes_discrete alpn (text "tokengo-exit")) exit_role client_role
