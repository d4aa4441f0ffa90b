-- ===== src/Crypto/Ohttp/Chunks.antt =====
-- Stream chunks: the stream encryptor and decryptor of internal/crypto/ohttp.go.
use token_go.Base.{
  ◌+◌, ◌<◌, Bytes, ◌++◌, length, ok, err, some, ◌≡◌, refl, arith, cut-append, length-append,
}
use token_go.Crypto.Interface.{Hpke, Gcm, GcmLaws, Paired}
use token_go.Crypto.Ohttp.{
  stream_label, new_stream_encryptor, new_stream_decryptor, encrypt_chunk, decrypt_chunk,
  ciphertext_too_short,
}
use token_go.Crypto.Ohttp.Responses.{new_aead-some}

module _ (g : Gcm) (laws : GcmLaws g) where
  pub decrypt_chunk-seal :
      (a : g.Aead) (plain nonce : Bytes)
      → length nonce ≡ g.nonce_size a
      → decrypt_chunk g a (nonce ++ g.seal a nonce plain) ≡ ok plain
  unfolding decrypt_chunk
  decrypt_chunk-seal a plain nonce size = ground (
    arith,
    cut-append (g.nonce_size a) nonce (g.seal a nonce plain) size,
    length-append nonce (g.seal a nonce plain),
    laws.length-seal a nonce plain,
    laws.unseal-seal a nonce plain size,
  )

  -- Paired contexts derive the same stream cipher on both sides, and each chunk, sealed with a fresh
  -- nonce of the cipher's length, is opened to the text that was sealed.
  pub decrypt_chunk-encrypt_chunk :
      (h : Hpke) (sealer : h.Sealer) (opener : h.Opener)
      → Paired h sealer opener
      → (a : g.Aead) × (new_stream_encryptor g h opener ≡ ok a)
        × (new_stream_decryptor g h sealer ≡ ok a)
        × ((plain nonce : Bytes)
            → length nonce ≡ g.nonce_size a
            → (sealed : Bytes) × (encrypt_chunk g a plain (some nonce) ≡ ok sealed)
              × (decrypt_chunk g a sealed ≡ ok plain))
  unfolding new_stream_encryptor new_stream_decryptor encrypt_chunk
  decrypt_chunk-encrypt_chunk h sealer opener paired =
      let (a, e) =
        new_aead-some g laws (h.opener_export opener stream_label 16)
          (paired.length-export stream_label 16) in
      (
        a,
        e,
        rw (paired.exports stream_label 16) e,
        λ plain nonce size.
            (nonce ++ g.seal a nonce plain, refl, decrypt_chunk-seal a plain nonce size),
      )

  -- A chunk that is shorter than a nonce and a tag is refused before it is opened.
  pub decrypt_chunk_short :
      (a : g.Aead) (bytes : Bytes)
      → length bytes < g.nonce_size a + g.overhead a
      → decrypt_chunk g a bytes ≡ err ciphertext_too_short
  unfolding decrypt_chunk
  decrypt_chunk_short a bytes h = ground arith
