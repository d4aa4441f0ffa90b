-- ===== src/Crypto/Runs.antt =====
-- The theorems about internal/crypto at concrete inputs.
use token_go.Base.{
  ℕ, zero, suc, ◌+◌, ◌≤◌, Bytes, [], ◌∷◌, ◌++◌, length, drop, uint16, ok, err, some, arith, ◌≡◌,
  refl,
}
use mathlib.Core.Logic.{◌↔◌}
use token_go.Crypto.Interface.{Paired}
use token_go.Crypto.Samples.{
  plain_hpke, plain_hpke-Paired, plain_hpke-IsKeyPair, plain_hpke-HasIds, plain_gcm,
  plain_gcm-GcmLaws, plain_http, zeros,
}
use token_go.Crypto.Keys.{encode_key_config, decode_key_config, panicked}
use token_go.Crypto.Keys.RoundTrip.{decode_key_config-encode_key_config, decode_key_config_panics}
use token_go.Crypto.Ohttp.{
  OhttpClient, OhttpServer, encapsulate_request, decapsulate_request, check_header,
  encapsulate_response, decapsulate_response, new_stream_encryptor, new_stream_decryptor,
  encrypt_chunk, decrypt_chunk, key_id_of,
}
use token_go.Crypto.Ohttp.Requests.{
  Sends, decapsulate_request-encapsulate_request, decapsulate_request_checks,
}
use token_go.Crypto.Ohttp.Responses.{decapsulate_response-encapsulate_response}
use token_go.Crypto.Ohttp.Chunks.{decrypt_chunk-encrypt_chunk}

decode_key_config-encode_key_config_example :
    decode_key_config (encode_key_config plain_hpke 9 (1 ∷ 2 ∷ []) ++ 5 ∷ []) ≡ ok (9, 1 ∷ 2 ∷ [])
decode_key_config-encode_key_config_example =
    decode_key_config-encode_key_config plain_hpke 9 (1 ∷ 2 ∷ []) (5 ∷ []) (omega arith)

-- Zero bytes, kept shut.
padding : ℕ → Bytes
padding zero = []
padding (suc n) = 0 ∷ padding n

length-padding : (n : ℕ) → length (padding n) ≡ n
unfolding padding
length-padding zero = refl
length-padding (suc n) = omega (arith, length-padding n)

abbrev hostile_config : Bytes
hostile_config = 9 ∷ 0 ∷ 32 ∷ 255 ∷ 255 ∷ padding 65535

decode_key_config_panics_example : (decode_key_config hostile_config ≡ err panicked) ↔ (
    (65531 ≤ uint16 (drop 3 hostile_config))
    × (5 + uint16 (drop 3 hostile_config) ≤ length hostile_config))
decode_key_config_panics_example = decode_key_config_panics hostile_config (omega arith)

hostile_config_panics : decode_key_config hostile_config ≡ err panicked
hostile_config_panics =
    (decode_key_config_panics hostile_config (omega arith)).1
      (omega arith, omega (arith, length-padding 65535))

abbrev client : OhttpClient plain_hpke
client = record { key_id = 9; pub_key_raw = 1 ∷ [] }

abbrev server : OhttpServer plain_hpke
server = record { key_id = 9; private_key = 2 ∷ [] }

abbrev sends : Sends plain_hpke plain_http client (3 ∷ 4 ∷ []) []
sends = record {
  plain = 3 ∷ 4 ∷ [];
  public = 1 ∷ [];
  sender = 1 ∷ [];
  enc = 7 ∷ [];
  sealer = 1 ∷ [];
  ct = 3 ∷ 4 ∷ [];
  dumped = refl;
  parsed = refl;
  sends = refl;
  set_up = refl;
  sealed = refl;
}

decapsulate_request-encapsulate_request_example :
    (bytes opener : Bytes) × (encapsulate_request plain_hpke plain_http client (3 ∷ 4 ∷ []) []
      ≡ ok (bytes, 1 ∷ []))
    × (decapsulate_request plain_hpke plain_http server bytes ≡ ok (3 ∷ 4 ∷ [], opener))
    × Paired plain_hpke (1 ∷ []) opener
decapsulate_request-encapsulate_request_example =
    decapsulate_request-encapsulate_request plain_hpke plain_http client server (3 ∷ 4 ∷ [])
      (3 ∷ 4 ∷ []) [] (2 ∷ []) sends plain_hpke-HasIds refl refl
      (plain_hpke-IsKeyPair (1 ∷ []) (2 ∷ [])) refl

abbrev sealed_request : Bytes
sealed_request = 9 ∷ 0 ∷ 32 ∷ 0 ∷ 1 ∷ 0 ∷ 1 ∷ 7 ∷ 3 ∷ 4 ∷ []

opened_request :
    decapsulate_request plain_hpke plain_http server sealed_request ≡ ok (3 ∷ 4 ∷ [], 2 ∷ [])
unfolding decapsulate_request check_header
opened_request = refl

decapsulate_request_checks_example :
    (key_id_of plain_hpke plain_http sealed_request ≡ server.key_id)
    × (uint16 (drop 1 sealed_request) ≡ 32)
    × (uint16 (drop 3 sealed_request) ≡ 1)
    × (uint16 (drop 5 sealed_request) ≡ 1)
    × (7 + 1 ≤ length sealed_request)
decapsulate_request_checks_example =
    decapsulate_request_checks plain_hpke plain_http server sealed_request (3 ∷ 4 ∷ []) (2 ∷ [])
      opened_request

decapsulate_response-encapsulate_response_example :
    (bytes : Bytes) × (encapsulate_response plain_gcm plain_http plain_hpke
        (2 ∷ [])
        (5 ∷ [])
        (some (zeros 16))
        (some (zeros 12))
      ≡ ok bytes)
    × (decapsulate_response plain_gcm plain_http plain_hpke (1 ∷ []) bytes ≡ ok (5 ∷ []))
decapsulate_response-encapsulate_response_example =
    decapsulate_response-encapsulate_response plain_gcm plain_gcm-GcmLaws plain_hpke plain_http
      (1 ∷ []) (2 ∷ []) (5 ∷ []) (5 ∷ []) (5 ∷ []) (zeros 16) (zeros 12)
      (plain_hpke-Paired (1 ∷ []) (2 ∷ [])) refl refl refl (λ a. refl)

decrypt_chunk-encrypt_chunk_example :
    (a : Bytes) × (new_stream_encryptor plain_gcm plain_hpke (2 ∷ []) ≡ ok a)
    × (new_stream_decryptor plain_gcm plain_hpke (1 ∷ []) ≡ ok a)
    × ((plain nonce : Bytes)
        → length nonce ≡ 12
        → (sealed : Bytes) × (encrypt_chunk plain_gcm a plain (some nonce) ≡ ok sealed)
          × (decrypt_chunk plain_gcm a sealed ≡ ok plain))
decrypt_chunk-encrypt_chunk_example =
    decrypt_chunk-encrypt_chunk plain_gcm plain_gcm-GcmLaws plain_hpke (1 ∷ []) (2 ∷ [])
      (plain_hpke-Paired (1 ∷ []) (2 ∷ []))
