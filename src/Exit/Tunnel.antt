-- ===== src/Exit/Tunnel.antt =====
-- `TunnelClient` of internal/exit/tunnel.go: an Exit's connection to its Relay.
pub mod Choice
pub mod Life
pub mod Loops
pub mod Registration
pub mod Retries
use token_go.Base.{
  ℕ, ◌*◌, zero, suc, ◌<◌, min, Bytes, text, List, [], ◌∷◌, ◌++◌, Option, none, some, Bool, true,
  false, Result, ok, err, ◌>>=◌, map_err, ◌==◌, ltb, if◌then◌else◌, ◌||◌,
}
use token_go.Protocol.Input.{Reader}
use token_go.Protocol.{
  DecodeError, Message, encode, decode, type_request, type_stream_request, type_heartbeat,
  type_register_ack, type_heartbeat_ack, type_error, new_response_message, new_error_message,
  new_heartbeat_ack_message, new_heartbeat_message, new_register_message,
}
use token_go.Net.{AddrInfo, extract_quic_address, is_empty}
use token_go.Crypto.Interface.{Hpke, Gcm, Http}
use token_go.Relay.Registry.{Close}
use token_go.Exit.Handler.{
  HttpLib, HandlerError, OhttpHandler, decrypt_and_forward, process_stream_request,
}

abbrev pub second : ℕ
second = 1000000000

-- The minimum is taken in float64, which is exact for the durations that occur, below 2 ^ 53.
unfoldable pub next_backoff : ℕ → ℕ → ℕ
next_backoff current max = min (current * 2) max

pub data TunnelError : Type 0 where
  dial_failed open_stream_failed write_failed no_discovery discovery_failed no_relays unreachable :
      TunnelError
  read_ack_failed : DecodeError → TunnelError
  unexpected_type : ℕ → TunnelError
  no_connection : TunnelError

pub record Best : Type 0 where
  pub addr : Bytes
  pub peer_id : Bytes
  pub rtt : ℕ

-- One round of the loop over the Relays. `probe` gives the round trip time to an address, checking the
-- peer's id; `none` is an error.
unfoldable pub probe_one : (Bytes → Bytes → Option ℕ) → Best → AddrInfo → Best
probe_one probe best relay =
    let addr = extract_quic_address relay.addrs in
    if is_empty addr then best else elim (probe addr relay.id) [
      | none ↦ best
      | some rtt ↦
          if is_empty best.addr || ltb rtt best.rtt
          then record { addr = addr; peer_id = relay.id; rtt = rtt }
          else best
    ]

unfoldable pub probe_loop : (Bytes → Bytes → Option ℕ) → Best → List AddrInfo → Best
unfolding probe_one
probe_loop probe best [] = best
probe_loop probe best (relay ∷ relays) = probe_loop probe (probe_one probe best relay) relays

unfoldable pub select_best_relay :
    (Bytes → Bytes → Option ℕ) → List AddrInfo → Result TunnelError (Bytes × Bytes)
unfolding probe_loop
select_best_relay probe relays =
    let best = probe_loop probe (record { addr = []; peer_id = []; rtt = 0 }) relays in
    if is_empty best.addr then err unreachable else ok (best.addr, best.peer_id)

-- `discovery` is `none` without a DHT, and then what `DiscoverRelays` returned.
unfoldable pub select_relay :
    Bytes
    → Option (Option (List AddrInfo))
    → (Bytes → Bytes → Option ℕ)
    → Result TunnelError (Bytes × Bytes)
unfolding select_best_relay
select_relay (a ∷ static_relay_addr) discovery probe = ok (a ∷ static_relay_addr, [])
select_relay [] none probe = err no_discovery
select_relay [] (some none) probe = err discovery_failed
select_relay [] (some (some [])) probe = err no_relays
select_relay [] (some (some (relay ∷ relays))) probe = select_best_relay probe (relay ∷ relays)

-- What the network does to one registration: `none` where dialing or opening the stream fails, then
-- whether the write succeeds, and what can be read.
pub record Dialed : Type 0 where
  pub conn : ℕ
  pub stream : Option (Bool × Reader)

-- A connection that is stored, or an error; what was written, and closed.
pub record Connected : Type 0 where
  pub result : Result TunnelError ℕ
  pub written : List Bytes
  pub closes : List Close

abbrev pub give_up : ℕ → List Bytes → Bytes → TunnelError → Connected
give_up conn written reason e = record {
  result = err e;
  written = written;
  closes = record { conn = conn; code = 1; reason = reason } ∷ [];
}

-- The registration on a stream of the new connection.
unfoldable pub register_on : ℕ → Bytes → Option (Bool × Reader) → Connected
register_on conn frame none = give_up conn [] (text "open stream failed") open_stream_failed
register_on conn frame (some (false, stream)) =
    give_up conn (frame ∷ []) (text "write register failed") write_failed
register_on conn frame (some (true, stream)) = elim (decode stream) [
  | err e ↦ give_up conn (frame ∷ []) (text "read register ack failed") (read_ack_failed e)
  | ok (ack, rest) ↦
      if ack.type == type_register_ack
      then record { result = ok conn; written = frame ∷ []; closes = [] }
      else give_up conn (frame ∷ []) (text "unexpected message type") (unexpected_type ack.type)
]

unfoldable pub connect_and_register : Bytes → Bytes → Option Dialed → Connected
unfolding register_on
connect_and_register pub_key_hash key_config none = record {
  result = err dial_failed;
  written = [];
  closes = [];
}
connect_and_register pub_key_hash key_config (some d) =
    register_on d.conn (encode (new_register_message pub_key_hash key_config)) d.stream

-- One heartbeat: `conn` is the stored connection, and `open_stream` gives its stream, as above.
unfoldable pub send_heartbeat :
    Option ℕ → (ℕ → Option (Bool × Reader)) → List Bytes × Result TunnelError (Unit {0})
unfolding decode
send_heartbeat none open_stream = ([], err no_connection)
send_heartbeat (some conn) open_stream = elim (open_stream conn) [
  | none ↦ ([], err open_stream_failed)
  | some (write_ok, stream) ↦ (
    encode new_heartbeat_message ∷ [],
    if write_ok
        then elim (decode stream) [
          | err e ↦ err (read_ack_failed e)
          | ok (ack, rest) ↦
              if ack.type == type_heartbeat_ack then ok tt else err (unexpected_type ack.type)
        ]
        else err write_failed,
  )
]

-- What `fmt` prints of errors, and of a number in two hexadecimal digits.
pub record Format : Type 0 where
  pub decode_error : DecodeError → Bytes
  pub handler_error : HandlerError → Bytes
  pub hex : ℕ → Bytes

abbrev pub error_frame : Bytes → Bytes
error_frame msg = encode (new_error_message msg)

module _ (h : Hpke) (g : Gcm) (w : Http) (lib : HttpLib w) (fmt : Format) where
  -- The switch over the message's type. `random` is the source of random bytes, the i-th read of
  -- them; `accepts` says whether the i-th write succeeds.
  unfoldable pub answer_message :
      OhttpHandler h g w lib → (ℕ → Option Bytes) → (ℕ → Bool) → Message → List Bytes
  unfolding decrypt_and_forward process_stream_request
  answer_message s random accepts msg =
      if msg.type == type_request
      then elim (decrypt_and_forward h g w lib s (random 0) (random 1) msg.payload) [
        | err e ↦ error_frame (text "process error: " ++ fmt.handler_error e) ∷ []
        | ok resp ↦ encode (new_response_message resp) ∷ []
      ]
      else if msg.type == type_stream_request
      then (let (written, failed) = process_stream_request h g w lib s random accepts msg.payload in
          elim failed [
            | none ↦ written
            | some e ↦ written ++ error_frame (text "stream error: " ++ fmt.handler_error e) ∷ []
          ])
      else if msg.type == type_heartbeat
      then encode new_heartbeat_ack_message ∷ []
      else error_frame (text "unknown message type: 0x" ++ fmt.hex msg.type) ∷ []

  unfoldable pub handle_incoming_stream :
      OhttpHandler h g w lib → (ℕ → Option Bytes) → (ℕ → Bool) → Reader → List Bytes
  unfolding answer_message
  handle_incoming_stream s random accepts stream = elim (decode stream) [
    | err e ↦ error_frame (text "decode error: " ++ fmt.decode_error e) ∷ []
    | ok (msg, rest) ↦ answer_message s random accepts msg
  ]
