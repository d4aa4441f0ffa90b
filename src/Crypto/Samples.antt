-- ===== src/Crypto/Samples.antt =====
-- Instances of Crypto.Interface that meet its laws, for theorems at concrete inputs: nothing is
-- hidden by them.
use token_go.Base.{
  ℕ, zero, suc, Bytes, [], ◌∷◌, ◌++◌, length, drop, some, true, arith, ◌≡◌, refl, ap,
}
use token_go.Crypto.Interface.{Hpke, Paired, IsKeyPair, HasIds, Gcm, GcmLaws, Http}

abbrev pub zeros : ℕ → Bytes
zeros zero = []
zeros (suc n) = 0 ∷ zeros n

pub length-zeros : (n : ℕ) → length (zeros n) ≡ n
length-zeros zero = refl
length-zeros (suc n) = ap suc (length-zeros n)

abbrev pub plain_hpke : Hpke
plain_hpke = record {
  kem_id = 32;
  kdf_id = 1;
  aead_id = 1;
  PublicKey = Bytes;
  PrivateKey = Bytes;
  Sender = Bytes;
  Receiver = Bytes;
  Sealer = Bytes;
  Opener = Bytes;
  ciphertext_size = 1;
  unmarshal_public_key = some;
  unmarshal_private_key = some;
  new_sender = some;
  new_receiver = some;
  sender_setup = λ sender seed. some (7 ∷ [], sender);
  receiver_setup = λ receiver enc. some receiver;
  seal = λ s plain aad. some plain;
  unseal = λ o sealed aad. some sealed;
  sealer_export = λ s context n. zeros n;
  opener_export = λ o context n. zeros n;
}

pub plain_hpke-Paired : (s o : Bytes) → Paired plain_hpke s o
plain_hpke-Paired s o = record {
  unseal-seal = λ plain aad sealed e. ground arith;
  exports = λ context n. refl;
  length-export = λ context n. length-zeros n;
}

pub plain_hpke-IsKeyPair : (public private : Bytes) → IsKeyPair plain_hpke public private
plain_hpke-IsKeyPair public private = record {
  agree = λ sender seed enc s e₁ e₂.
      (ground arith, private, private, refl, refl, plain_hpke-Paired s private);
}

pub plain_hpke-HasIds : HasIds plain_hpke
plain_hpke-HasIds = omega arith

abbrev pub plain_gcm : Gcm
plain_gcm = record {
  Block = Bytes;
  Aead = Bytes;
  new_cipher = some;
  new_gcm = some;
  nonce_size = λ a. 12;
  overhead = λ a. 16;
  seal = λ a nonce plain. zeros 16 ++ plain;
  unseal = λ a nonce sealed. some (drop 16 sealed);
}

pub plain_gcm-GcmLaws : GcmLaws plain_gcm
plain_gcm-GcmLaws = record {
  aes128 = λ key e. (key, key, refl, refl);
  unseal-seal = λ a nonce plain e. refl;
  length-seal = λ a nonce plain. omega arith;
  tag_size = λ a. omega arith;
}

abbrev pub plain_http : Http
plain_http = record {
  Request = Bytes;
  Response = Bytes;
  has_body = λ r. true;
  content_length = λ r. length r;
  set_content_length = λ n r. r;
  dump_request = some;
  read_request = some;
  write_response = some;
  read_response = some;
}
