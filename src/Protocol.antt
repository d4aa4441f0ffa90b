-- ===== src/Protocol.antt =====
-- internal/protocol/messages.go: the frames that Client, Relay and Exit exchange on QUIC streams.
pub mod Input
pub mod RoundTrip
pub mod Exact
pub mod Limits
mod Runs
use token_go.Base.{
  ℕ, zero, suc, ◌*◌, ◌<◌, ◌≤◌, ◌^◌, Bytes, IsByte, AreBytes, List, Option, none, some, [], ◌∷◌,
  ◌++◌, length, text, put_uint16, put_uint32, uint16, uint32, Result, ok, err, ◌>>=◌, map_err, ltb,
  if◌then◌else◌, drop,
}
use Input.{ReadError, Reader, read_full}

-- `MessageType` is a uint8; a decoded message may carry any of its 256 values.
abbrev pub MessageType : Type 0
MessageType = ℕ

abbrev pub type_request : MessageType
type_request = 0x01

abbrev pub type_response : MessageType
type_response = 0x02

abbrev pub type_stream_request : MessageType
type_stream_request = 0x03

abbrev pub type_stream_chunk : MessageType
type_stream_chunk = 0x04

abbrev pub type_stream_end : MessageType
type_stream_end = 0x05

abbrev pub type_register : MessageType
type_register = 0x10

abbrev pub type_register_ack : MessageType
type_register_ack = 0x11

abbrev pub type_query_exit_keys : MessageType
type_query_exit_keys = 0x12

abbrev pub type_exit_keys_response : MessageType
type_exit_keys_response = 0x13

abbrev pub type_heartbeat : MessageType
type_heartbeat = 0x20

abbrev pub type_heartbeat_ack : MessageType
type_heartbeat_ack = 0x21

abbrev pub type_error : MessageType
type_error = 0xff

pub record Message : Type 0 where
  pub type : MessageType
  pub target : Bytes
  pub payload : Bytes

-- The lengths are converted to uint16 and uint32, so a longer target or payload wraps round.
unfoldable pub encode : Message → Bytes
encode m =
    m.type
    ∷ (put_uint16 (length m.target) ++ (m.target ++ (put_uint32 (length m.payload) ++ m.payload)))

abbrev pub max_target_size : ℕ
max_target_size = 1024

abbrev pub max_payload_size : ℕ
max_payload_size = 16 * 1024 * 1024

pub data DecodeError : Type 0 where
  header_failed target_failed length_failed payload_failed : ReadError → DecodeError
  target_too_long payload_too_large : ℕ → DecodeError

-- `header[0]`, of a header of three bytes.
abbrev pub first_byte : Bytes → ℕ
first_byte (b ∷ rest) = b
first_byte [] = 0

-- The target is read only if its length is not 0.
unfoldable pub read_target : ℕ → Reader → Result DecodeError (Bytes × Reader)
read_target zero r = ok ([], r)
read_target (suc n) r = map_err target_failed (read_full (suc n) r)

unfoldable pub read_payload : Reader → Result DecodeError (Bytes × Reader)
read_payload r = do
  (size, r') ← map_err length_failed (read_full 4 r)
  let n = uint32 size
  if ltb max_payload_size n
      then err (payload_too_large n)
      else map_err payload_failed (read_full n r')

-- The message, and the reader behind it.
unfoldable pub decode : Reader → Result DecodeError (Message × Reader)
decode r = do
  (header, r₁) ← map_err header_failed (read_full 3 r)
  let target_len = uint16 (drop 1 header)
  if ltb max_target_size target_len then err (target_too_long target_len) else do
    (target, r₂) ← read_target target_len r₁
    (payload, r₃) ← read_payload r₂
    ok (record { type = first_byte header; target = target; payload = payload }, r₃)

unfoldable pub new_request_message : Bytes → Bytes → Message
new_request_message target ohttp_payload = record {
  type = type_request;
  target = target;
  payload = ohttp_payload;
}

unfoldable pub new_response_message : Bytes → Message
new_response_message ohttp_payload = record {
  type = type_response;
  target = [];
  payload = ohttp_payload;
}

unfoldable pub new_stream_request_message : Bytes → Bytes → Message
new_stream_request_message target ohttp_payload = record {
  type = type_stream_request;
  target = target;
  payload = ohttp_payload;
}

unfoldable pub new_stream_chunk_message : Bytes → Message
new_stream_chunk_message encrypted_chunk = record {
  type = type_stream_chunk;
  target = [];
  payload = encrypted_chunk;
}

unfoldable pub new_stream_end_message : Message
new_stream_end_message = record { type = type_stream_end; target = []; payload = [] }

unfoldable pub new_error_message : Bytes → Message
new_error_message err_msg = record { type = type_error; target = []; payload = err_msg }

unfoldable pub new_register_message : Bytes → Bytes → Message
new_register_message pub_key_hash payload = record {
  type = type_register;
  target = pub_key_hash;
  payload = payload;
}

unfoldable pub new_register_ack_message : Bytes → Message
new_register_ack_message payload = record {
  type = type_register_ack;
  target = [];
  payload = payload;
}

unfoldable pub new_heartbeat_message : Message
new_heartbeat_message = record { type = type_heartbeat; target = []; payload = [] }

unfoldable pub new_heartbeat_ack_message : Message
new_heartbeat_ack_message = record { type = type_heartbeat_ack; target = []; payload = [] }

pub record ExitKeyEntry : Type 0 where
  pub pub_key_hash : Bytes
  pub key_config : Bytes

unfoldable pub new_query_exit_keys_message : Message
new_query_exit_keys_message = record { type = type_query_exit_keys; target = []; payload = [] }

-- `json.Marshal` is a parameter; its failure is the error of this constructor function.
unfoldable pub new_exit_keys_response_message :
    (List ExitKeyEntry → Option Bytes) → List ExitKeyEntry → Option Message
new_exit_keys_response_message marshal entries = elim (marshal entries) [
  | none ↦ none
  | some bytes ↦ some (record { type = type_exit_keys_response; target = []; payload = bytes })
]

-- What `decode` accepts: a uint8 type, and a target and a payload within the limits.
pub record IsValid (m : Message) : Type 0 where
  pub type_byte : IsByte m.type
  pub target_bytes : AreBytes m.target
  pub target_fits : length m.target ≤ max_target_size
  pub payload_bytes : AreBytes m.payload
  pub payload_fits : length m.payload ≤ max_payload_size
