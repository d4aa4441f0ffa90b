-- ===== src/Crypto/Keys/RoundTrip.antt =====
-- `EncodeKeyConfig` and `DecodeKeyConfig` of internal/crypto/keys.go.
use token_go.Base.{
  ℕ, ◌+◌, ◌≤◌, ◌<◌, ◌^◌, Bytes, ◌++◌, length, drop, put_uint16, uint16, ok, err, arith,
  take-append_length, length-append, uint16-put_uint16, append_assoc, ◌≡◌,
}
use mathlib.Core.Logic.{◌↔◌}
use token_go.Crypto.Interface.{Hpke}
use token_go.Crypto.Keys.{encode_key_config, decode_key_config, panicked}

-- A key of less than 65531 bytes is read back from its configuration, whatever bytes follow it.
pub decode_key_config-encode_key_config :
    (h : Hpke) (key_id : ℕ) (public_key rest : Bytes)
    → length public_key + 5 < 2 ^ 16
    → decode_key_config (encode_key_config h key_id public_key ++ rest) ≡ ok (key_id, public_key)
unfolding decode_key_config encode_key_config
decode_key_config-encode_key_config h key_id public_key rest fits =
    let suites : Bytes = put_uint16 4 ++ (put_uint16 h.kdf_id ++ put_uint16 h.aead_id) in
    ground (
      arith,
      append_assoc public_key suites rest,
      length-append public_key (suites ++ rest),
      take-append_length public_key (suites ++ rest),
      uint16-put_uint16 (length public_key) (omega arith),
    )

-- The decoder panics, instead of returning, exactly on the inputs that announce a key of 65531 bytes
-- or more and are long enough to hold it.
pub decode_key_config_panics :
    (bytes : Bytes)
    → uint16 (drop 3 bytes) < 2 ^ 16
    → (decode_key_config bytes ≡ err panicked)
      ↔ ((65531 ≤ uint16 (drop 3 bytes)) × (5 + uint16 (drop 3 bytes) ≤ length bytes))
unfolding decode_key_config
decode_key_config_panics bytes fits = (λ e. ground arith, λ p. ground arith)
