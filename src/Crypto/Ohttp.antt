-- ===== src/Crypto/Ohttp.antt =====
-- internal/crypto/ohttp.go: sealing of requests, responses and stream chunks.
-- HPKE, AES-GCM and the HTTP text are the parameters of Crypto.Interface. A source of randomness is
-- an argument, `none` where reading it fails.
pub mod Requests
pub mod Responses
pub mod Chunks
use Prim.Native.Nat.{bit_xor}
use token_go.Base.{
  ℕ, zero, suc, ◌+◌, ◌<◌, Bytes, text, List, [], ◌∷◌, ◌++◌, length, take, drop, put_uint16, uint16,
  Result, ok, err, ◌>>=◌, Option, none, some, Bool, true, false, ltb, ◌==◌, not, ◌&&◌, ◌||◌,
  if◌then◌else◌, ◌≡◌,
}
use token_go.Crypto.Interface.{Hpke, Gcm, Http}

pub data CryptoError : Type 0 where
  dump_failed public_key_failed sender_failed setup_failed seal_failed : CryptoError
  request_too_short key_id_mismatch unsupported_suite incomplete_data : CryptoError
  private_key_failed receiver_failed open_failed read_request_failed : CryptoError
  write_failed nonce_failed cipher_failed gcm_failed : CryptoError
  response_too_short ciphertext_too_short read_response_failed : CryptoError

-- A call that fails is answered by this component's error.
abbrev pub or_fail {ℓ} : {A : Type ℓ} → Option A → CryptoError → Result CryptoError A
or_fail none e = err e
or_fail (some a) e = ok a

pub or_fail-ok {ℓ} :
    {A : Type ℓ} (o : Option A) (e : CryptoError) {a : A} → or_fail o e ≡ ok a → o ≡ some a
or_fail-ok none e h = cc
or_fail-ok (some x) e h = cc

abbrev pub require : Bool → CryptoError → Result CryptoError (Unit {0})
require true e = ok tt
require false e = err e

infixl 5 ◌>>◌
abbrev ◌>>◌ {ℓ} :
    {B : Type ℓ} → Result CryptoError (Unit {0}) → Result CryptoError B → Result CryptoError B
m >> k = m >>= λ _. k

-- `respKey[i] = secret[i] ^ nonce[i]` for the 16 indices; the two are 16 bytes long.
unfoldable pub xor_bytes : Bytes → Bytes → Bytes
xor_bytes (a ∷ as') (b ∷ bs) = bit_xor a b ∷ xor_bytes as' bs
xor_bytes (a ∷ as') [] = []
xor_bytes [] bs = []

abbrev pub response_label : Bytes
response_label = text "message/bhttp response"

abbrev pub stream_label : Bytes
stream_label = text "ohttp-stream"

module _ (h : Hpke) where
  pub record OhttpClient : Type 0 where
    pub key_id : ℕ
    pub pub_key_raw : Bytes

  pub record OhttpServer : Type 0 where
    pub key_id : ℕ
    pub private_key : Bytes

  unfoldable pub new_ohttp_client : ℕ → Bytes → OhttpClient
  new_ohttp_client key_id public_key_bytes = record {
    key_id = key_id;
    pub_key_raw = public_key_bytes;
  }

  unfoldable pub new_ohttp_server : ℕ → Bytes → OhttpServer
  new_ohttp_server key_id private_key_bytes = record {
    key_id = key_id;
    private_key = private_key_bytes;
  }

  -- KeyID || KEM_ID || KDF_ID || AEAD_ID
  abbrev pub request_header : ℕ → Bytes
  request_header key_id =
      key_id ∷ (put_uint16 h.kem_id ++ (put_uint16 h.kdf_id ++ put_uint16 h.aead_id))

  module _ (w : Http) where
    -- The length header is set if the request has a body of known, positive length.
    abbrev pub prepare : w.Request → w.Request
    prepare req =
        if w.has_body req && ltb 0 (w.content_length req)
        then w.set_content_length (w.content_length req) req
        else req

    -- The sealed request, and the sealer, which is the Client's context.
    unfoldable pub encapsulate_request :
        OhttpClient → w.Request → Bytes → Result CryptoError (Bytes × h.Sealer)
    encapsulate_request c req seed = do
      plain ← or_fail (w.dump_request (prepare req)) dump_failed
      public ← or_fail (h.unmarshal_public_key c.pub_key_raw) public_key_failed
      sender ← or_fail (h.new_sender public) sender_failed
      (enc, sealer) ← or_fail (h.sender_setup sender seed) setup_failed
      ct ← or_fail (h.seal sealer plain (request_header c.key_id)) seal_failed
      ok (request_header c.key_id ++ (enc ++ ct), sealer)

    -- `data[0]`, of at least 7 bytes.
    abbrev pub key_id_of : Bytes → ℕ
    key_id_of (b ∷ rest) = b
    key_id_of [] = 0

    abbrev pub same_suite : Bytes → Bool
    same_suite bytes =
        (uint16 (drop 1 bytes) == h.kem_id)
        && (uint16 (drop 3 bytes) == h.kdf_id)
        && (uint16 (drop 5 bytes) == h.aead_id)

    -- The checks of `DecapsulateRequest` on the header, in their order.
    unfoldable pub check_header : OhttpServer → Bytes → Result CryptoError (Unit {0})
    check_header s bytes = do
      require (not (ltb (length bytes) 7)) request_too_short
      require (key_id_of bytes == s.key_id) key_id_mismatch
      require (same_suite bytes) unsupported_suite
      require (not (ltb (length bytes) (7 + h.ciphertext_size))) incomplete_data

    -- The request, and the opener, which is the Exit's context.
    unfoldable pub decapsulate_request :
        OhttpServer → Bytes → Result CryptoError (w.Request × h.Opener)
    decapsulate_request s bytes = do
      _ ← check_header s bytes
      private ← or_fail (h.unmarshal_private_key s.private_key) private_key_failed
      receiver ← or_fail (h.new_receiver private) receiver_failed
      opener ←
          or_fail (h.receiver_setup receiver (take h.ciphertext_size (drop 7 bytes))) setup_failed
      plain ←
          or_fail (h.unseal opener (drop (7 + h.ciphertext_size) bytes) (take 7 bytes)) open_failed
      req ← or_fail (w.read_request plain) read_request_failed
      ok (req, opener)

module _ (g : Gcm) where
  unfoldable pub new_aead : Bytes → Result CryptoError g.Aead
  new_aead key = do
    block ← or_fail (g.new_cipher key) cipher_failed
    or_fail (g.new_gcm block) gcm_failed

  module _ (w : Http) (h : Hpke) where
    unfoldable pub encapsulate_response :
        h.Opener → w.Response → Option Bytes → Option Bytes → Result CryptoError Bytes
    encapsulate_response opener resp random random_gcm = do
      plain ← or_fail (w.write_response resp) write_failed
      nonce ← or_fail random nonce_failed
      aead ← new_aead (xor_bytes (h.opener_export opener response_label 16) nonce)
      gcm_nonce ← or_fail random_gcm nonce_failed
      ok (nonce ++ (gcm_nonce ++ g.seal aead gcm_nonce plain))

    -- `DecapsulateResponse` behind its cut of the data into the nonce and the rest.
    unfoldable pub open_response : h.Sealer → Bytes → Bytes → Result CryptoError w.Response
    open_response sealer nonce ct = do
      aead ← new_aead (xor_bytes (h.sealer_export sealer response_label 16) nonce)
      require (not (ltb (length ct) (g.nonce_size aead + g.overhead aead))) ciphertext_too_short
      plain ←
          or_fail (g.unseal aead (take (g.nonce_size aead) ct) (drop (g.nonce_size aead) ct))
            open_failed
      or_fail (w.read_response plain) read_response_failed

    unfoldable pub decapsulate_response : h.Sealer → Bytes → Result CryptoError w.Response
    decapsulate_response sealer bytes = do
      require (not (ltb (length bytes) (16 + 16))) response_too_short
      open_response sealer (take 16 bytes) (drop 16 bytes)

  module _ (h : Hpke) where
    unfoldable pub new_stream_encryptor : h.Opener → Result CryptoError g.Aead
    unfolding new_aead
    new_stream_encryptor opener = new_aead (h.opener_export opener stream_label 16)

    unfoldable pub new_stream_decryptor : h.Sealer → Result CryptoError g.Aead
    unfolding new_aead
    new_stream_decryptor sealer = new_aead (h.sealer_export sealer stream_label 16)

  unfoldable pub encrypt_chunk : g.Aead → Bytes → Option Bytes → Result CryptoError Bytes
  encrypt_chunk aead plain random = do
    nonce ← or_fail random nonce_failed
    ok (nonce ++ g.seal aead nonce plain)

  unfoldable pub decrypt_chunk : g.Aead → Bytes → Result CryptoError Bytes
  decrypt_chunk aead bytes = do
    require (not (ltb (length bytes) (g.nonce_size aead + g.overhead aead))) ciphertext_too_short
    or_fail (g.unseal aead (take (g.nonce_size aead) bytes) (drop (g.nonce_size aead) bytes))
        open_failed
