-- ===== src/Crypto/Interface.antt =====
-- What internal/crypto calls and does not implement: HPKE (github.com/cloudflare/circl/hpke), AES-GCM
-- (crypto/aes, crypto/cipher) and the HTTP/1.1 text of requests and responses (net/http). `none` is
-- an error of the call; randomness is an argument.
use token_go.Base.{ℕ, ◌+◌, ◌<◌, ◌≤◌, ◌^◌, ◌≡◌, Bytes, length, Option, some, Bool}

pub record Hpke : Type 1 where
  pub kem_id : ℕ
  pub kdf_id : ℕ
  pub aead_id : ℕ
  pub PublicKey : Type 0
  pub PrivateKey : Type 0
  pub Sender : Type 0
  pub Receiver : Type 0
  pub Sealer : Type 0
  pub Opener : Type 0
  pub ciphertext_size : ℕ
  pub unmarshal_public_key : Bytes → Option PublicKey
  pub unmarshal_private_key : Bytes → Option PrivateKey
  pub new_sender : PublicKey → Option Sender
  pub new_receiver : PrivateKey → Option Receiver
  pub sender_setup : Sender → Bytes → Option (Bytes × Sealer)
  pub receiver_setup : Receiver → Bytes → Option Opener
  -- The first message of a context, with the text and the associated data.
  pub seal : Sealer → Bytes → Bytes → Option Bytes
  pub unseal : Opener → Bytes → Bytes → Option Bytes
  pub sealer_export : Sealer → Bytes → ℕ → Bytes
  pub opener_export : Opener → Bytes → ℕ → Bytes

-- The two contexts of one exchange.
pub record Paired (h : Hpke) (s : h.Sealer) (o : h.Opener) : Type 0 where
  pub unseal-seal :
      (plain aad sealed : Bytes)
      → h.seal s plain aad ≡ some sealed
      → h.unseal o sealed aad ≡ some plain
  pub exports :
      (context : Bytes) (n : ℕ) → h.sealer_export s context n ≡ h.opener_export o context n
  pub length-export : (context : Bytes) (n : ℕ) → length (h.opener_export o context n) ≡ n

-- A private key whose receiver agrees with every sender for the public key (RFC 9180).
pub record IsKeyPair (h : Hpke) (public : h.PublicKey) (private : h.PrivateKey) : Type 0 where
  pub agree :
      (sender : h.Sender) (seed enc : Bytes) (s : h.Sealer)
      → h.new_sender public ≡ some sender
      → h.sender_setup sender seed ≡ some (enc, s)
      → (length enc ≡ h.ciphertext_size)
        × (receiver : h.Receiver) × (o : h.Opener) × (h.new_receiver private ≡ some receiver)
        × (h.receiver_setup receiver enc ≡ some o)
        × Paired h s o

-- The identifiers are uint16.
pub record HasIds (h : Hpke) : Type 0 where
  pub kem_fits : h.kem_id < 2 ^ 16
  pub kdf_fits : h.kdf_id < 2 ^ 16
  pub aead_fits : h.aead_id < 2 ^ 16

pub record Gcm : Type 1 where
  pub Block : Type 0
  pub Aead : Type 0
  pub new_cipher : Bytes → Option Block
  pub new_gcm : Block → Option Aead
  pub nonce_size : Aead → ℕ
  pub overhead : Aead → ℕ
  pub seal : Aead → Bytes → Bytes → Bytes
  pub unseal : Aead → Bytes → Bytes → Option Bytes

pub record GcmLaws (g : Gcm) : Type 0 where
  pub aes128 :
      (key : Bytes)
      → length key ≡ 16
      → (block : g.Block) × (aead : g.Aead) × (g.new_cipher key ≡ some block)
        × (g.new_gcm block ≡ some aead)
  pub unseal-seal :
      (a : g.Aead) (nonce plain : Bytes)
      → length nonce ≡ g.nonce_size a
      → g.unseal a nonce (g.seal a nonce plain) ≡ some plain
  pub length-seal :
      (a : g.Aead) (nonce plain : Bytes)
      → length (g.seal a nonce plain) ≡ length plain + g.overhead a
  pub tag_size : (a : g.Aead) → 16 ≤ g.overhead a

-- `content_length` is 0 where Go has no length, or -1.
pub record Http : Type 1 where
  pub Request : Type 0
  pub Response : Type 0
  pub has_body : Request → Bool
  pub content_length : Request → ℕ
  pub set_content_length : ℕ → Request → Request
  pub dump_request : Request → Option Bytes
  pub read_request : Bytes → Option Request
  pub write_response : Response → Option Bytes
  pub read_response : Bytes → Option Response
