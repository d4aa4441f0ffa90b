-- ===== src/Crypto/Keys.antt =====
-- internal/crypto/keys.go: the KeyConfig of an Exit, as it travels through the Relay to the Client.
pub mod RoundTrip
pub mod Stored
use token_go.Base.{
  ℕ, ◌+◌, ◌%◌, ◌^◌, Bytes, List, [], ◌∷◌, ◌++◌, length, take, drop, put_uint16, uint16, Result, ok,
  err, Option, none, some, ltb, if◌then◌else◌, ◌-◌, ◌<◌, ◌||◌,
}
use token_go.Crypto.Interface.{Hpke}

-- `none` is a slice out of range, at which Go panics. The upper end may go up to the capacity, which
-- is the length of a slice that was made whole.
unfoldable pub slice : ℕ → ℕ → Bytes → Option Bytes
slice lo hi bytes =
    if ltb hi lo || ltb (length bytes) hi then none else some (take (hi - lo) (drop lo bytes))

unfoldable pub encode_key_config : Hpke → ℕ → Bytes → Bytes
encode_key_config h key_id public_key =
    key_id
    ∷ (put_uint16 h.kem_id
        ++ (put_uint16 (length public_key)
            ++ (public_key ++ (put_uint16 4 ++ (put_uint16 h.kdf_id ++ put_uint16 h.aead_id)))))

pub data KeyConfigError : Type 0 where
  too_short incomplete panicked : KeyConfigError

abbrev pub head_or_zero : Bytes → ℕ
head_or_zero (b ∷ rest) = b
head_or_zero [] = 0

-- The bounds of the slice are uint16 sums, so the upper one wraps round at 2 ^ 16.
unfoldable pub decode_key_config : Bytes → Result KeyConfigError (ℕ × Bytes)
unfolding slice
decode_key_config bytes =
    let pub_key_len = uint16 (drop 3 bytes) in
    if ltb (length bytes) 7
    then err too_short
    else if ltb (length bytes) (5 + pub_key_len)
    then err incomplete
    else elim (slice 5 ((5 + pub_key_len) % 2 ^ 16) bytes) [
      | none ↦ err panicked
      | some public_key ↦ ok (head_or_zero bytes, public_key)
    ]
