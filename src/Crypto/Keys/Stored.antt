-- ===== src/Crypto/Keys/Stored.antt =====
-- The keys of internal/crypto/keys.go: their generation, their files, and the hash that names an Exit.
-- The KEM, SHA-256 and hexadecimal text are parameters.
use token_go.Base.{ℕ, Bytes, take, Option, none, some, Result, ok, err, ◌>>=◌, map_err}
use token_go.Files.{Access, Files, Base64, read_file, write_file}
use token_go.Crypto.Interface.{Hpke}
use token_go.Crypto.Keys.{KeyConfigError, encode_key_config, decode_key_config}

pub record KeyPair : Type 0 where
  pub public_key : Bytes
  pub private_key : Bytes
  pub key_id : ℕ

-- `kem.Scheme`: keys by the number of a draw, and their bytes. `none` is an error.
pub record Scheme (Public Private : Type 0) : Type 0 where
  pub generate_keys : ℕ → Option (Public × Private)
  pub marshal_public : Public → Option Bytes
  pub marshal_private : Private → Option Bytes

pub data KeyError : Type 0 where
  generate_failed marshal_failed random_failed : KeyError
  read_failed decode_failed write_public_failed write_private_failed : KeyError
  config_failed : KeyConfigError → KeyError

abbrev pub or_fail {ℓ} : {A : Type ℓ} → KeyError → Option A → Result KeyError A
or_fail e none = err e
or_fail e (some a) = ok a

-- `random` is the byte of the key's id.
unfoldable pub generate_key_pair :
    {Public Private : Type 0} → Scheme Public Private → ℕ → Option ℕ → Result KeyError KeyPair
generate_key_pair scheme draw random =
    or_fail KeyError.generate_failed (scheme.generate_keys draw) >>= λ keys.
    or_fail KeyError.marshal_failed (scheme.marshal_public keys.0) >>= λ public_key.
    or_fail KeyError.marshal_failed (scheme.marshal_private keys.1) >>= λ private_key.
    or_fail KeyError.random_failed random >>= λ key_id.
    ok (record { public_key = public_key; private_key = private_key; key_id = key_id })

module _ (h : Hpke) (b64 : Base64) (access : Access) where
  -- The public key is written first, and stays if the private key cannot be.
  unfoldable pub save_key_pair :
      KeyPair → Bytes → Bytes → Files → Files × Result KeyError (Unit {0})
  unfolding write_file encode_key_config
  save_key_pair kp pub_path priv_path files =
      elim (write_file access pub_path
        (b64.encode_to_string (encode_key_config h kp.key_id kp.public_key)) files) [
          | none ↦ (files, err KeyError.write_public_failed)
          | some files' ↦
              (elim (write_file access priv_path (b64.encode_to_string kp.private_key) files') [
                | none ↦ (files', err KeyError.write_private_failed)
                | some files'' ↦ (files'', ok tt)
              ])
        ]

unfoldable pub load_private_key : Base64 → Access → Bytes → Files → Result KeyError Bytes
unfolding read_file
load_private_key b64 access path files =
    or_fail KeyError.read_failed (read_file access path files) >>= λ content.
    or_fail KeyError.decode_failed (b64.decode_string content)

unfoldable pub load_public_key_config : Base64 → Bytes → Result KeyError (ℕ × Bytes)
unfolding decode_key_config
load_public_key_config b64 s = or_fail KeyError.decode_failed (b64.decode_string s) >>= λ bytes.
    map_err KeyError.config_failed (decode_key_config bytes)

-- The first 16 bytes of the hash.
unfoldable pub pub_key_hash : (Bytes → Bytes) → (Bytes → Bytes) → Bytes → Bytes
pub_key_hash sum256 hex public_key = hex (take 16 (sum256 public_key))
