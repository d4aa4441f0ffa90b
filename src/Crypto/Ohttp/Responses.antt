-- ===== src/Crypto/Ohttp/Responses.antt =====
-- Responses: `EncapsulateResponse` and `DecapsulateResponse` of internal/crypto/ohttp.go.
use token_go.Base.{
  ◌≤◌, Bytes, [], ◌∷◌, ◌++◌, length, ok, some, ◌≡◌, arith, cut-append, length-append, min, ◌∙◌,
}
use token_go.Crypto.Interface.{Hpke, Gcm, GcmLaws, Http, Paired}
use token_go.Crypto.Ohttp.{
  xor_bytes, response_label, new_aead, encapsulate_response, open_response, decapsulate_response,
}

pub length-xor_bytes : (xs ys : Bytes) → length (xor_bytes xs ys) ≡ min (length xs) (length ys)
unfolding xor_bytes
length-xor_bytes (x ∷ xs) (y ∷ ys) = omega (arith, length-xor_bytes xs ys)
length-xor_bytes (x ∷ xs) [] = omega arith
length-xor_bytes [] ys = omega arith

module _ (g : Gcm) (laws : GcmLaws g) where
  -- Keys of 16 bytes always give a cipher.
  pub new_aead-some : (key : Bytes) → length key ≡ 16 → (a : g.Aead) × (new_aead g key ≡ ok a)
  unfolding new_aead
  new_aead-some key h = let (block, a, e₁, e₂) = laws.aes128 key h in (a, ground (arith, e₁, e₂))

  -- Opening what was sealed under the same response key.
  open_response-seal :
      (h : Hpke) (w : Http) (sealer : h.Sealer) (a : g.Aead) (nonce gcm_nonce plain : Bytes)
      (resp : w.Response)
      → new_aead g (xor_bytes (h.sealer_export sealer response_label 16) nonce) ≡ ok a
      → length gcm_nonce ≡ g.nonce_size a
      → w.read_response plain ≡ some resp
      → open_response g w h sealer nonce (gcm_nonce ++ g.seal a gcm_nonce plain) ≡ ok resp
  unfolding open_response
  open_response-seal h w sealer a nonce gcm_nonce plain resp e size read = ground (
    arith,
    cut-append (g.nonce_size a) gcm_nonce (g.seal a gcm_nonce plain) size,
    length-append gcm_nonce (g.seal a gcm_nonce plain),
    laws.length-seal a gcm_nonce plain,
    laws.unseal-seal a gcm_nonce plain size,
  )

  decapsulate_response-append :
      (h : Hpke) (w : Http) (sealer : h.Sealer) (nonce ct : Bytes)
      → length nonce ≡ 16
      → 16 ≤ length ct
      → decapsulate_response g w h sealer (nonce ++ ct) ≡ open_response g w h sealer nonce ct
  unfolding decapsulate_response
  decapsulate_response-append h w sealer nonce ct size long =
      let (front, back) = cut-append 16 nonce ct size in
      rw (front, back) (ground (arith, length-append nonce ct))

  -- An Exit's response, sealed with two nonces of the right lengths, is sealed without an error, and
  -- the paired context of the Client opens it to the response that the HTTP text reads as.
  pub decapsulate_response-encapsulate_response :
      (h : Hpke) (w : Http) (sealer : h.Sealer) (opener : h.Opener) (resp resp' : w.Response)
      (plain nonce gcm_nonce : Bytes)
      → Paired h sealer opener
      → w.write_response resp ≡ some plain
      → w.read_response plain ≡ some resp'
      → length nonce ≡ 16
      → ((a : g.Aead) → length gcm_nonce ≡ g.nonce_size a)
      → (bytes : Bytes) × (encapsulate_response g w h opener resp (some nonce) (some gcm_nonce)
          ≡ ok bytes)
        × (decapsulate_response g w h sealer bytes ≡ ok resp')
  unfolding encapsulate_response
  decapsulate_response-encapsulate_response h w sealer opener resp resp' plain nonce gcm_nonce
        paired written read size gcm_size =
      let secret : Bytes = h.opener_export opener response_label 16 in
      let (a, e) =
        new_aead-some (xor_bytes secret nonce)
          (omega (arith, length-xor_bytes secret nonce, paired.length-export response_label 16)) in
      let ct : Bytes = gcm_nonce ++ g.seal a gcm_nonce plain in
      let long : 16 ≤ length ct = omega (
        arith,
        length-append gcm_nonce (g.seal a gcm_nonce plain),
        laws.length-seal a gcm_nonce plain,
        laws.tag_size a,
      ) in
      (
        nonce ++ ct,
        ground (arith, written, e),
        decapsulate_response-append h w sealer nonce ct size long
            ∙ open_response-seal h w sealer a nonce gcm_nonce plain resp'
                (rw (paired.exports response_label 16) e) (gcm_size a) read,
      )
