-- ===== src/Relay/Node.antt =====
-- internal/relay/relay.go: a Relay's parts, put together.
-- Three draws of randomness: the identity, the certificate, and the identity of the DHT node.
pub mod Identities
pub mod Writes
mod Runs
use token_go.Base.{
  ℕ, Bytes, text, List, [], ◌∷◌, length, Option, none, some, Bool, true, false, Result, ok, err,
  map_err, ◌>>=◌, ltb, not, ◌||◌, if◌then◌else◌,
}
use token_go.Net.{is_empty}
use token_go.Files.{Access, Files, Base64}
use token_go.Config.{RelayConfig, DhtConfig}
use token_go.Identity.{KeyLibrary, Identity, IdentityError, generate, load_or_generate}
use token_go.Cert.{
  X509, CertError, TlsConfig, TlsCertificate, generate_peer_id_cert, create_server_tls_config,
}
use token_go.Dht.Node.{Node, NodeConfig, NodeError, new_node}
use token_go.Dht.Provider.{Provider, new_provider}
use token_go.Relay.Registry.{Registry, new_registry}

pub data RelayError : Type 0 where
  identity_failed : IdentityError → RelayError
  cert_failed : CertError → RelayError
  dht_failed : NodeError → RelayError

-- The QUIC server with its registry is `listen`, `tls` and `registry`.
pub record RelayNode (PrivKey PubKey Key : Type 0) : Type 0 where
  pub cfg : RelayConfig
  pub registry : Registry
  pub tls_certificates : List (TlsCertificate Key)
  pub next_protos : List Bytes
  pub listen : Bytes
  pub dht_node : Option (Node PrivKey PubKey)
  pub provider : Option Provider

abbrev pub certs_dir : Bytes
certs_dir = text "./certs"

-- What a call changes and gives.
abbrev pub Outcome : Type 0 → Type 0
Outcome A = Files × Result RelayError A

abbrev pub then_with : {A B : Type 0} → Outcome A → (A → Files → Outcome B) → Outcome B
then_with (files, err e) f = (files, err e)
then_with (files, ok a) f = f a files

module _ {PrivKey PubKey Key : Type 0} (lib : KeyLibrary PrivKey PubKey) (b64 : Base64)
    (x : X509 PrivKey Key) (access : Access) where
  unfoldable pub relay_identity : ℕ → Bytes → Files → Outcome (Identity PrivKey PubKey)
  relay_identity draw path files =
      if is_empty path
      then (files, map_err RelayError.identity_failed (generate lib b64 access draw))
      else (let (files', id) = load_or_generate lib b64 access draw path files in
          (files', map_err RelayError.identity_failed id))

  unfoldable pub relay_cert :
      ℕ → ℕ → ℕ → Identity PrivKey PubKey → Files → Outcome (TlsCertificate Key)
  relay_cert draw serial now id files =
      let (files', cert) =
        generate_peer_id_cert x access draw serial now id.priv_key certs_dir files in
      (files', map_err RelayError.cert_failed cert)

  abbrev relay_dht_config : DhtConfig → NodeConfig
  relay_dht_config dht = record {
    private_key_path = dht.private_key_file;
    bootstrap_peers = dht.bootstrap_peers;
    listen_addrs = dht.listen_addrs;
    external_addrs = dht.external_addrs;
    mode = text "server";
    service_type = text "relay";
  }

  unfoldable pub relay_dht : ℕ → DhtConfig → Files → Outcome (Option (Node PrivKey PubKey))
  unfolding new_node
  relay_dht draw dht files =
      if ltb 0 (length dht.listen_addrs) || not (is_empty dht.private_key_file)
      then (let (files', n) = new_node lib b64 access draw (relay_dht_config dht) files in
          (files', map_err RelayError.dht_failed n >>= λ n. ok (some n)))
      else (files, ok none)

  -- The provider comes with the node.
  abbrev pub relay_provider : Option (Node PrivKey PubKey) → Option Provider
  relay_provider none = none
  relay_provider (some n) = some (new_provider (text "relay"))

  abbrev pub relay_node :
      RelayConfig → TlsCertificate Key → Option (Node PrivKey PubKey) → RelayNode PrivKey PubKey Key
  relay_node cfg cert dht_node = record {
    cfg = cfg;
    registry = new_registry;
    tls_certificates = cert ∷ [];
    next_protos = text "tokengo-relay" ∷ text "tokengo-exit" ∷ [];
    listen = cfg.listen;
    dht_node = dht_node;
    provider = relay_provider dht_node;
  }

  -- `New`
  unfoldable pub new_relay :
      (draw draw_cert serial now draw_dht : ℕ)
      → RelayConfig
      → Files
      → Outcome (RelayNode PrivKey PubKey Key)
  unfolding relay_identity relay_cert relay_dht
  new_relay draw draw_cert serial now draw_dht cfg files =
      then_with (relay_identity draw cfg.dht.private_key_file files) (λ id files₁.
        then_with (relay_cert draw_cert serial now id files₁) (λ cert files₂.
          then_with (relay_dht draw_dht cfg.dht files₂)
            (λ dht_node files₃. (files₃, ok (relay_node cfg cert dht_node)))))
