-- ===== src/Relay/Node/Identities.antt =====
-- The two identities of a Relay: the one that `New` of internal/relay/relay.go makes its certificate
-- with, and the one of its DHT node, under which Clients find it.
use mathlib.Core.Logic.{◌↔◌}
use token_go.Base.{
  ℕ, Bytes, [], ◌∷◌, length, Option, none, some, true, false, Result, ok, err, map_err, map_err-ok,
  ◌≡◌, ◌≢◌, refl, sym, ap, subst, ◌∙◌, arith, ltb, not, ◌||◌,
}
use token_go.Net.{is_empty}
use token_go.Files.{Access, Files, Base64, Base64Laws}
use token_go.Config.{RelayConfig, DhtConfig}
use token_go.Identity.{KeyLibrary, Identity, Laws, load_or_generate}
use token_go.Identity.Restart.{
  Kept, IsCoherent, load_or_generate-Kept, load_or_generate_finds, Kept-other,
}
use token_go.Cert.{
  X509, Laws as CertLaws, TlsCertificate, generate_peer_id_cert, verify_peer_id, cert_file_name,
  key_file_name,
}
use token_go.Cert.Store.{generate-other}
use token_go.Cert.Verify.{verify_peer_id-generate}
use token_go.Dht.Node.{Node, new_node}
use token_go.Relay.Node.{
  RelayNode, RelayError, Outcome, then_with, relay_identity, relay_cert, relay_dht, new_relay,
  certs_dir, relay_dht_config, relay_node,
}

pub then_with-ok :
    {A B : Type 0} (m : Outcome A) (f : A → Files → Outcome B) (files : Files) (b : B)
    → then_with m f ≡ (files, ok b)
    → (a : A) × (files' : Files) × (m ≡ (files', ok a)) × (f a files' ≡ (files, ok b))
then_with-ok (files', ok a) f files b h = (a, files', refl, h)
then_with-ok (files', err e) f files b h = absurd cc

wrapped-ok :
    {E A : Type 0} (w : E → RelayError) (o : Files × Result E A) (files : Files) (a : A)
    → ◌≡◌ {A = Outcome A} (o.0, map_err w o.1) (files, ok a)
    → o ≡ (files, ok a)
wrapped-ok w o files a h = λ i. ((h i).0, map_err-ok w o.1 (ap (λ z. z.1) h) i)

module _ {PrivKey PubKey Key : Type 0} (lib : KeyLibrary PrivKey PubKey) (laws : Laws lib)
    (b64 : Base64) (b64_laws : Base64Laws b64) (x : X509 PrivKey Key) (cert_laws : CertLaws x)
    (access : Access) where
  -- What is relied on beyond the laws: an id is the same from either half of a key.
  abbrev pub IdsAgree : Type 0
  IdsAgree = (k : PrivKey) → x.id_from_private_key k ≡ lib.id_from_public_key (lib.get_public k)

  relay_dht_same :
      (draw : ℕ) (dht : DhtConfig) (files : Files) (id : Identity PrivKey PubKey)
      → is_empty dht.private_key_file ≡ false
      → Kept lib laws b64 b64_laws access dht.private_key_file files id
      → (n : Node PrivKey PubKey) × (n.identity ≡ id)
        × (relay_dht lib b64 x access draw dht files ≡ (files, ok (some n)))
  unfolding relay_dht new_node
  relay_dht_same draw dht files id named kept = (
    record {
      identity = id;
      config = relay_dht_config lib b64 x access dht;
      host = none;
      started = false;
    },
    refl,
    rw
        (
          relay_dht,
          asked,
          new_node,
          load_or_generate_finds lib laws b64 b64_laws access draw dht.private_key_file files id
              named kept,
        )
        refl,
  )
    where
      asked : (ltb 0 (length dht.listen_addrs) || not (is_empty dht.private_key_file)) ≡ true
      asked = ground arith

  identity_loaded :
      (draw : ℕ) (path : Bytes) (files files' : Files) (id : Identity PrivKey PubKey)
      → is_empty path ≡ false
      → relay_identity lib b64 x access draw path files ≡ (files', ok id)
      → load_or_generate lib b64 access draw path files ≡ (files', ok id)
  unfolding relay_identity
  identity_loaded draw path files files' id named h =
      wrapped-ok RelayError.identity_failed _ files' id (rw (named, relay_identity) at h)

  pub cert_made :
      (draw serial now : ℕ) (id : Identity PrivKey PubKey) (files files' : Files)
      (cert : TlsCertificate Key)
      → relay_cert lib b64 x access draw serial now id files ≡ (files', ok cert)
      → generate_peer_id_cert x access draw serial now id.priv_key certs_dir files
        ≡ (files', ok cert)
  unfolding relay_cert
  cert_made draw serial now id files files' cert h =
      wrapped-ok RelayError.cert_failed _ files' cert h

  -- The steps of a successful `New`.
  pub new_relay_steps :
      (draw draw_cert serial now draw_dht : ℕ) (cfg : RelayConfig) (files files' : Files)
      (node : RelayNode PrivKey PubKey Key)
      → new_relay lib b64 x access draw draw_cert serial now draw_dht cfg files ≡ (files', ok node)
      → (id : Identity PrivKey PubKey) × (files₁ : Files) × (relay_identity lib b64 x access draw
            cfg.dht.private_key_file files
          ≡ (files₁, ok id))
        × (cert : TlsCertificate Key) × (files₂ : Files) × (relay_cert lib b64 x access draw_cert
              serial now id files₁
            ≡ (files₂, ok cert))
        × (dht_node : Option (Node PrivKey PubKey)) × (files₃ : Files) × (relay_dht lib b64 x access
              draw_dht cfg.dht files₂
            ≡ (files₃, ok dht_node))
        × (node.dht_node ≡ dht_node)
        × (node.tls_certificates ≡ cert ∷ [])
        × (files₃ ≡ files')
  unfolding new_relay
  new_relay_steps draw draw_cert serial now draw_dht cfg files files' node h =
      let (id, files₁, e₁, h₁) =
        then_with-ok (relay_identity lib b64 x access draw cfg.dht.private_key_file files) _ files'
          node h in
      let (cert, files₂, e₂, h₂) =
        then_with-ok (relay_cert lib b64 x access draw_cert serial now id files₁) _ files' node
          h₁ in
      let (dht_node, files₃, e₃, h₃) =
        then_with-ok (relay_dht lib b64 x access draw_dht cfg.dht files₂) _ files' node h₂ in
      let same : relay_node lib b64 x access cfg cert dht_node ≡ node =
        the_ok files₃ files' _ node h₃ in
      (
        id,
        files₁,
        e₁,
        cert,
        files₂,
        e₂,
        dht_node,
        files₃,
        e₃,
        sym (ap (λ r. r.dht_node) same),
        sym (ap (λ r. r.tls_certificates) same),
        ap (λ z. z.0) h₃,
      )
    where
      the_ok :
          (f g : Files) (a b : RelayNode PrivKey PubKey Key)
          → ◌≡◌ {A = Outcome (RelayNode PrivKey PubKey Key)} (f, ok a) (g, ok b)
          → a ≡ b
      the_ok f g a b e = cc

  known_id :
      (id : Identity PrivKey PubKey) (i : Bytes)
      → IdsAgree
      → IsCoherent lib laws b64 b64_laws access id
      → x.id_from_private_key id.priv_key ≡ some i
      → i ≡ id.peer_id
  known_id id i agree (pub_key, peer_id) e = ground (arith, agree id.priv_key)

  -- If the Relay has a key file whose path can be read and is none of the certificate's files, and
  -- `New` gives a Relay, then it has a DHT node, and the one certificate of its server is accepted for
  -- that node's peer id, and for no other.
  pub new_relay_lem :
      (draw draw_cert serial now draw_dht : ℕ) (cfg : RelayConfig) (files files' : Files)
      (node : RelayNode PrivKey PubKey Key)
      → IdsAgree
      → is_empty cfg.dht.private_key_file ≡ false
      → access.can_read cfg.dht.private_key_file ≡ true
      → x.join certs_dir cert_file_name ≢ cfg.dht.private_key_file
      → x.join certs_dir key_file_name ≢ cfg.dht.private_key_file
      → new_relay lib b64 x access draw draw_cert serial now draw_dht cfg files ≡ (files', ok node)
      → (n : Node PrivKey PubKey) × (cert : TlsCertificate Key) × (node.dht_node ≡ some n)
        × (node.tls_certificates ≡ cert ∷ [])
        × ((expected : Bytes)
            → (verify_peer_id x cert.certificate expected ≡ none) ↔ (expected ≡ n.identity.peer_id))
  new_relay_lem draw draw_cert serial now draw_dht cfg files files' node agree named r nc nk h =
      let (id, files₁, e₁, cert, files₂, e₂, dht_node, files₃, e₃, has_node, has_cert, _) =
        new_relay_steps draw draw_cert serial now draw_dht cfg files files' node h in
      let loaded = identity_loaded draw cfg.dht.private_key_file files files₁ id named e₁ in
      let made = cert_made draw_cert serial now id files₁ files₂ cert e₂ in
      let kept =
        load_or_generate-Kept lib laws b64 b64_laws access draw _ files files₁ id named r loaded in
      let (same_read, same_exists) =
        generate-other x access draw_cert serial now id.priv_key certs_dir _ files₁ files₂ cert refl
          nc nk made in
      let kept₂ =
        Kept-other lib laws b64 b64_laws access _ files₁ files₂ id same_read same_exists kept in
      let (n, same_id, e) = relay_dht_same draw_dht cfg.dht files₂ id named kept₂ in
      let (i, known, accepted) =
        verify_peer_id-generate x cert_laws access draw_cert serial now id.priv_key certs_dir files₁
          files₂ cert made in
      let the_id : i ≡ n.identity.peer_id =
        known_id id i agree kept.2 known ∙ ap (λ d. d.peer_id) (sym same_id) in
      (
        n,
        cert,
        has_node ∙ the_node (sym e₃ ∙ e),
        has_cert,
        subst
            (λ i.
              (expected : Bytes)
              → (verify_peer_id x cert.certificate expected ≡ none) ↔ (expected ≡ i))
            the_id accepted,
      )
    where
      the_node :
          {f g : Files} {d : Option (Node PrivKey PubKey)} {n : Node PrivKey PubKey}
          → ◌≡◌ {A = Outcome (Option (Node PrivKey PubKey))} (f, ok d) (g, ok (some n))
          → d ≡ some n
      the_node e = cc
