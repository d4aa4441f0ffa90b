-- ===== src/Identity.antt =====
-- internal/identity/identity.go: the key of a node, its peer id, and the file that keeps it.
-- The keys of libp2p are parameters, and randomness is the number of the draw.
pub mod Restart
pub mod Samples
mod Runs
use token_go.Base.{ℕ, Bytes, Option, none, some, Result, ok, err, ◌>>=◌, ◌≡◌, if◌then◌else◌}
use token_go.Files.{Access, Files, Base64, read_file, write_file, exists}
use token_go.Net.{is_empty}

-- What the file uses of libp2p. `none` is an error.
pub record KeyLibrary (PrivKey PubKey : Type 0) : Type 0 where
  pub generate_key : ℕ → Option (PrivKey × PubKey)
  pub get_public : PrivKey → PubKey
  pub id_from_public_key : PubKey → Option Bytes
  pub marshal : PrivKey → Option Bytes
  pub unmarshal : Bytes → Option PrivKey

-- Their documented behaviour.
pub record Laws {PrivKey PubKey : Type 0} (lib : KeyLibrary PrivKey PubKey) : Type 0 where
  pub generate_key_public :
      (draw : ℕ) (k : PrivKey) (p : PubKey)
      → lib.generate_key draw ≡ some (k, p)
      → lib.get_public k ≡ p
  pub unmarshal-marshal :
      (k : PrivKey) (b : Bytes) → lib.marshal k ≡ some b → lib.unmarshal b ≡ some k

pub data IdentityError : Type 0 where
  generate_failed peer_id_failed read_failed decode_failed unmarshal_failed : IdentityError
  marshal_failed write_failed save_failed : IdentityError

pub record Identity (PrivKey PubKey : Type 0) : Type 0 where
  pub priv_key : PrivKey
  pub pub_key : PubKey
  pub peer_id : Bytes

-- `if err != nil { return nil, e }`
abbrev pub or_fail {ℓ} : {A : Type ℓ} → IdentityError → Option A → Result IdentityError A
or_fail e none = err e
or_fail e (some a) = ok a

module _ {PrivKey PubKey : Type 0} (lib : KeyLibrary PrivKey PubKey) (b64 : Base64)
    (access : Access) where
  abbrev identity_of : PrivKey → PubKey → Result IdentityError (Identity PrivKey PubKey)
  identity_of k p = or_fail IdentityError.peer_id_failed (lib.id_from_public_key p) >>= λ id.
      ok (record { priv_key = k; pub_key = p; peer_id = id })

  unfoldable pub generate : ℕ → Result IdentityError (Identity PrivKey PubKey)
  generate draw =
      or_fail IdentityError.generate_failed (lib.generate_key draw) >>= λ kp. identity_of kp.0 kp.1

  unfoldable pub load : Bytes → Files → Result IdentityError (Identity PrivKey PubKey)
  unfolding read_file
  load path files = or_fail IdentityError.read_failed (read_file access path files) >>= λ content.
      or_fail IdentityError.decode_failed (b64.decode_string content) >>= λ key.
      or_fail IdentityError.unmarshal_failed (lib.unmarshal key) >>= λ k.
      identity_of k (lib.get_public k)

  unfoldable pub save : Identity PrivKey PubKey → Bytes → Files → Result IdentityError Files
  unfolding write_file
  save identity path files =
      or_fail IdentityError.marshal_failed (lib.marshal identity.priv_key) >>= λ key.
      or_fail IdentityError.write_failed (write_file access path (b64.encode_to_string key) files)

  unfoldable pub saved :
      Identity PrivKey PubKey
      → Bytes
      → Files
      → Files × Result IdentityError (Identity PrivKey PubKey)
  unfolding save
  saved identity path files = elim (save identity path files) [
    | err e ↦ (files, err IdentityError.save_failed)
    | ok files' ↦ (files', ok identity)
  ]

  unfoldable pub new_identity :
      ℕ → Bytes → Files → Files × Result IdentityError (Identity PrivKey PubKey)
  unfolding generate saved
  new_identity draw path files = elim (generate draw) [
    | err e ↦ (files, err e)
    | ok identity ↦ if is_empty path then (files, ok identity) else saved identity path files
  ]

  unfoldable pub load_or_generate :
      ℕ → Bytes → Files → Files × Result IdentityError (Identity PrivKey PubKey)
  unfolding load new_identity exists
  load_or_generate draw path files =
      if is_empty path
      then new_identity draw path files
      else (if exists path files then (files, load path files) else new_identity draw path files)
