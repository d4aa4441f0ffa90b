-- ===== src/Client/Requests.antt =====
-- Requests of the Client of internal/client/client.go on a stream of its connection.
use token_go.Base.{
  ℕ, zero, suc, Bytes, List, [], ◌∷◌, Option, none, some, Bool, true, false, Result, ok, err, ◌>>=◌,
  map_err, ◌==◌, if◌then◌else◌,
}
use token_go.Protocol.Input.{Reader}
use token_go.Protocol.{
  DecodeError, Message, ExitKeyEntry, encode, decode, type_response, type_error, type_stream_chunk,
  type_stream_end, type_exit_keys_response, new_request_message, new_stream_request_message,
}
use token_go.Crypto.Interface.{Hpke, Gcm, Http}
use token_go.Crypto.Ohttp.{
  CryptoError, OhttpClient, encapsulate_request, decapsulate_response, new_stream_decryptor,
  decrypt_chunk,
}

pub data ClientError : Type 0 where
  open_stream_failed write_failed close_failed unmarshal_failed : ClientError
  encrypt_failed decrypt_failed decryptor_failed : CryptoError → ClientError
  read_failed : DecodeError → ClientError
  server_error : Bytes → ClientError
  invalid_type : ℕ → ClientError
  end_of_stream : ClientError

-- A stream of the connection: whether writing and closing its sending side succeed, and what can be
-- read.
pub record Stream : Type 0 where
  pub write_ok : Bool
  pub close_ok : Bool
  pub answer : Reader

abbrev pub or_fail {ℓ} : {A : Type ℓ} → Option A → ClientError → Result ClientError A
or_fail none e = err e
or_fail (some a) e = ok a

abbrev pub require : Bool → ClientError → Result ClientError (Unit {0})
require true e = ok tt
require false e = err e

-- The checks on the type of an answer.
unfoldable pub expect : ℕ → Message → Result ClientError Bytes
expect type msg =
    if msg.type == type_error
    then err (server_error msg.payload)
    else if msg.type == type
    then ok msg.payload
    else err (invalid_type msg.type)

unfoldable pub read_answer : ℕ → Reader → Result ClientError Bytes
unfolding decode expect
read_answer type answer = map_err read_failed (decode answer) >>= λ r. expect type r.0

module _ (unmarshal : Bytes → Option (List ExitKeyEntry)) where
  -- The method `QueryExitKeys`; `unmarshal` is `json.Unmarshal`.
  unfoldable pub query_exit_keys : Option Stream → Result ClientError (List ExitKeyEntry)
  unfolding read_answer
  query_exit_keys stream = do
    s ← or_fail stream open_stream_failed
    _ ← require s.write_ok write_failed
    payload ← read_answer type_exit_keys_response s.answer
    or_fail (unmarshal payload) unmarshal_failed

module _ (h : Hpke) (w : Http) where
  -- What a request writes: nothing if it cannot be sealed.
  unfoldable pub request_frame :
      OhttpClient h → Bytes → w.Request → Bytes → Result ClientError (Bytes × h.Sealer)
  unfolding encapsulate_request
  request_frame c exit_pub_key_hash req seed =
      map_err encrypt_failed (encapsulate_request h w c req seed) >>= λ r.
      ok (encode (new_request_message exit_pub_key_hash r.0), r.1)

  unfoldable pub stream_request_frame :
      OhttpClient h → Bytes → w.Request → Bytes → Result ClientError (Bytes × h.Sealer)
  unfolding encapsulate_request
  stream_request_frame c exit_pub_key_hash req seed =
      map_err encrypt_failed (encapsulate_request h w c req seed) >>= λ r.
      ok (encode (new_stream_request_message exit_pub_key_hash r.0), r.1)

module _ (h : Hpke) (g : Gcm) (w : Http) where
  -- The method `SendRequest` on a connection, which opens `stream`.
  unfoldable pub send_request :
      OhttpClient h → Bytes → Option Stream → w.Request → Bytes → Result ClientError w.Response
  unfolding request_frame read_answer decapsulate_response
  send_request c exit_pub_key_hash stream req seed = do
    s ← or_fail stream open_stream_failed
    (frame, sealer) ← request_frame h w c exit_pub_key_hash req seed
    _ ← require s.write_ok write_failed
    _ ← require s.close_ok close_failed
    payload ← read_answer type_response s.answer
    map_err decrypt_failed (decapsulate_response g w h sealer payload)

  -- The method `SendStreamRequest`: the decryptor, and the stream to read chunks from.
  unfoldable pub send_stream_request :
      OhttpClient h
      → Bytes
      → Option Stream
      → w.Request
      → Bytes
      → Result ClientError (g.Aead × Reader)
  unfolding stream_request_frame new_stream_decryptor
  send_stream_request c exit_pub_key_hash stream req seed = do
    s ← or_fail stream open_stream_failed
    (frame, sealer) ← stream_request_frame h w c exit_pub_key_hash req seed
    _ ← require s.write_ok write_failed
    _ ← require s.close_ok close_failed
    decryptor ← map_err decryptor_failed (new_stream_decryptor g h sealer)
    ok (decryptor, s.answer)

module _ (g : Gcm) (decryptor : g.Aead) where
  unfoldable pub open_chunk : Message → Result ClientError Bytes
  unfolding decrypt_chunk
  open_chunk msg =
      if msg.type == type_stream_chunk
      then map_err decrypt_failed (decrypt_chunk g decryptor msg.payload)
      else if msg.type == type_stream_end
      then err end_of_stream
      else if msg.type == type_error
      then err (server_error msg.payload)
      else err (invalid_type msg.type)

  -- The method `ReadChunk`: the chunk, and the stream behind it.
  unfoldable pub read_chunk : Reader → Result ClientError (Bytes × Reader)
  unfolding decode open_chunk
  read_chunk stream = do
    (msg, rest) ← map_err read_failed (decode stream)
    chunk ← open_chunk msg
    ok (chunk, rest)

  -- Reading chunk after chunk, at most `fuel` of them: those read, and the error that ended it.
  unfoldable pub read_chunks : ℕ → Reader → List Bytes × Option ClientError
  unfolding read_chunk
  read_chunks zero stream = ([], none)
  read_chunks (suc fuel) stream = elim (read_chunk stream) [
    | err e ↦ ([], some e)
    | ok (chunk, rest) ↦ let (chunks, e) = read_chunks fuel rest in (chunk ∷ chunks, e)
  ]
