-- ===== src/Crypto/Ohttp/Requests.antt =====
-- Requests: `EncapsulateRequest` and `DecapsulateRequest` of internal/crypto/ohttp.go.
use token_go.Base.{
  ◌+◌, ◌≤◌, Bytes, ◌++◌, length, drop, uint16, ok, some, ◌≡◌, arith, cut-append, length-append,
  uint16-put_uint16, >>=-ok,
}
use token_go.Crypto.Interface.{Hpke, Http, Paired, IsKeyPair, HasIds}
use token_go.Crypto.Ohttp.{
  OhttpClient, OhttpServer, request_header, prepare, encapsulate_request, decapsulate_request,
  check_header, key_id_of,
}

module _ (h : Hpke) (w : Http) where
  check_header-append :
      (s : OhttpServer h) (rest : Bytes)
      → HasIds h
      → h.ciphertext_size ≤ length rest
      → check_header h w s (request_header h s.key_id ++ rest) ≡ ok tt
  unfolding check_header
  check_header-append s rest ids fits = ground (
    arith,
    ids.kem_fits,
    ids.kdf_fits,
    ids.aead_fits,
    uint16-put_uint16 h.kem_id,
    uint16-put_uint16 h.kdf_id,
    uint16-put_uint16 h.aead_id,
  )

  -- What a sender, a seed and an HTTP text lead to, where no call of a library fails.
  pub record Sends (c : OhttpClient h) (req : w.Request) (seed : Bytes) : Type 0 where
    pub plain : Bytes
    pub public : h.PublicKey
    pub sender : h.Sender
    pub enc : Bytes
    pub sealer : h.Sealer
    pub ct : Bytes
    pub dumped : w.dump_request (prepare h w req) ≡ some plain
    pub parsed : h.unmarshal_public_key c.pub_key_raw ≡ some public
    pub sends : h.new_sender public ≡ some sender
    pub set_up : h.sender_setup sender seed ≡ some (enc, sealer)
    pub sealed : h.seal sealer plain (request_header h c.key_id) ≡ some ct

  -- If the request has an HTTP text, the Client's copy of the Exit's public key can be read, and
  -- HPKE's sender is made, set up and seals that text without an error, then `EncapsulateRequest`
  -- gives a request without an error, and the Exit with the private key and the same key id opens
  -- it: it gets the request that the HTTP text reads as, and a context that is paired with the
  -- Client's. The HPKE identifiers are 16 bits wide, and the key pair keeps the law of HPKE.
  pub decapsulate_request-encapsulate_request :
      (c : OhttpClient h) (s : OhttpServer h) (req req' : w.Request) (seed : Bytes)
      (private : h.PrivateKey) (p : Sends c req seed)
      → HasIds h
      → s.key_id ≡ c.key_id
      → h.unmarshal_private_key s.private_key ≡ some private
      → IsKeyPair h p.public private
      → w.read_request p.plain ≡ some req'
      → (bytes : Bytes) × (opener : h.Opener) × (encapsulate_request h w c req seed
          ≡ ok (bytes, p.sealer))
        × (decapsulate_request h w s bytes ≡ ok (req', opener))
        × Paired h p.sealer opener
  unfolding encapsulate_request decapsulate_request
  decapsulate_request-encapsulate_request c s req req' seed private p ids same key pair read =
      let (size, receiver, opener, e₁, e₂, paired) =
        pair.agree p.sender seed p.enc p.sealer p.sends p.set_up in
      (
        request_header h c.key_id ++ (p.enc ++ p.ct),
        opener,
        ground (arith, p.dumped, p.parsed, p.sends, p.set_up, p.sealed),
        ground (
          arith,
          same,
          key,
          read,
          size,
          e₁,
          e₂,
          check_header-append s (p.enc ++ p.ct) ids (omega (arith, size, length-append p.enc p.ct)),
          cut-append h.ciphertext_size p.enc p.ct size,
          paired.unseal-seal p.plain (request_header h c.key_id) p.ct p.sealed,
        ),
        paired,
      )

  -- An Exit opens nothing that is not addressed to its key and suite: a request that it accepts
  -- carries its key id and the three identifiers, and is at least as long as the header and the
  -- encapsulated key.
  pub decapsulate_request_checks :
      (s : OhttpServer h) (bytes : Bytes) (req : w.Request) (opener : h.Opener)
      → decapsulate_request h w s bytes ≡ ok (req, opener)
      → (key_id_of h w bytes ≡ s.key_id)
        × (uint16 (drop 1 bytes) ≡ h.kem_id)
        × (uint16 (drop 3 bytes) ≡ h.kdf_id)
        × (uint16 (drop 5 bytes) ≡ h.aead_id)
        × (7 + h.ciphertext_size ≤ length bytes)
  unfolding decapsulate_request check_header
  decapsulate_request_checks s bytes req opener e =
      let (_, checked, _) = >>=-ok (check_header h w s bytes) _ e in ground (arith, checked)
