-- ===== src/Relay/Node/Writes.antt =====
-- Which files `New` of internal/relay/relay.go writes when only the address to listen on is set.
use token_go.Base.{ℕ, Bytes, [], true, ok, ◌≡◌, ◌≢◌, refl, ap, sym, ◌∙◌}
use token_go.Net.{is_empty}
use token_go.Files.{Access, Files, Base64, Base64Laws, read_file}
use token_go.Config.{RelayConfig}
use token_go.Identity.{KeyLibrary, Identity, Laws}
use token_go.Cert.{X509, Laws as CertLaws, cert_file_name, key_file_name}
use token_go.Cert.Store.{generate-other}
use token_go.Relay.Node.{RelayNode, relay_identity, relay_dht, new_relay, certs_dir}
use token_go.Relay.Node.Identities.{cert_made, new_relay_steps}

module _ {PrivKey PubKey Key : Type 0} (lib : KeyLibrary PrivKey PubKey) (laws : Laws lib)
    (b64 : Base64) (b64_laws : Base64Laws b64) (x : X509 PrivKey Key) (cert_laws : CertLaws x)
    (access : Access) where
  identity_writes :
      (draw : ℕ) (path : Bytes) (files files' : Files) (id : Identity PrivKey PubKey)
      → is_empty path ≡ true
      → relay_identity lib b64 x access draw path files ≡ (files', ok id)
      → files ≡ files'
  unfolding relay_identity
  identity_writes draw path files files' id e h = ap (λ z. z.0) (rw (e, relay_identity) at h)

  dht_writes :
      (draw : ℕ) (cfg : RelayConfig) (files : Files)
      → cfg.dht.listen_addrs ≡ []
      → is_empty cfg.dht.private_key_file ≡ true
      → (relay_dht lib b64 x access draw cfg.dht files).0 ≡ files
  unfolding relay_dht
  dht_writes draw cfg files l e = rw (l, e, relay_dht) refl

  -- Only the two files of the certificate.
  pub new_relay-other :
      (draw draw_cert serial now draw_dht : ℕ) (cfg : RelayConfig) (path : Bytes)
      (files files' : Files) (node : RelayNode PrivKey PubKey Key)
      → is_empty cfg.dht.private_key_file ≡ true
      → cfg.dht.listen_addrs ≡ []
      → x.join certs_dir cert_file_name ≢ path
      → x.join certs_dir key_file_name ≢ path
      → new_relay lib b64 x access draw draw_cert serial now draw_dht cfg files ≡ (files', ok node)
      → read_file access path files' ≡ read_file access path files
  new_relay-other draw draw_cert serial now draw_dht cfg path files files' node e l nc nk h =
      let (id, files₁, e₁, cert, files₂, e₂, dht_node, files₃, e₃, _, _, last) =
        new_relay_steps lib laws b64 b64_laws x cert_laws access draw draw_cert serial now draw_dht
          cfg files files' node h in
      let same₁ : files ≡ files₁ =
        identity_writes draw cfg.dht.private_key_file files files₁ id e e₁ in
      let same₃ : files₂ ≡ files' =
        sym (dht_writes draw_dht cfg files₂ l e) ∙ ap (λ z. z.0) e₃ ∙ last in
      let made =
        cert_made lib laws b64 b64_laws x cert_laws access draw_cert serial now id files₁ files₂
          cert e₂ in
      let (same_read, _) =
        generate-other x access draw_cert serial now id.priv_key certs_dir path files₁ files₂ cert
          refl nc nk made in
      ap (read_file access path) (sym same₃) ∙ same_read ∙ ap (read_file access path) (sym same₁)
