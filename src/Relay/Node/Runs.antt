-- ===== src/Relay/Node/Runs.antt =====
-- internal/relay/relay.go at concrete configurations.
use mathlib.Core.Logic.{◌↔◌}
use token_go.Base.{
  ℕ, Bytes, text, [], ◌∷◌, none, some, false, ok, ◌≡◌, ◌≢◌, refl, arith, insert, lookup,
  bytes_discrete,
}
use token_go.Files.{Files}
use token_go.Config.{RelayConfig}
use token_go.Identity.{Identity, load_or_generate, generate}
use token_go.Identity.Samples.{
  plain_keys, plain_keys-Laws, plain_base64, plain_base64-Laws, all_access,
}
use token_go.Cert.{TlsCertificate, verify_peer_id, generate_peer_id_cert, peer_id_mismatch}
use token_go.Cert.Samples.{plain_x509, plain_x509-Laws}
use token_go.Dht.Node.{Node}
use token_go.Relay.Node.{
  RelayNode, new_relay, relay_identity, relay_cert, relay_dht, relay_dht_config, relay_node,
}
use token_go.Relay.Node.Identities.{new_relay_lem}

abbrev no_files : Files
no_files = []

abbrev config : Bytes → RelayConfig
config key_file = record {
  listen = text ":4433";
  dht = record {
    bootstrap_peers = [];
    listen_addrs = text "/ip4/0.0.0.0/tcp/4003" ∷ [];
    external_addrs = [];
    private_key_file = key_file;
    mode = [];
  };
}

abbrev identity : ℕ → Identity Bytes Bytes
identity draw = record { priv_key = draw ∷ []; pub_key = draw ∷ []; peer_id = 9 ∷ draw ∷ [] }

abbrev dht_node : ℕ → Bytes → Node Bytes Bytes
dht_node draw key_file = record {
  identity = identity draw;
  config = relay_dht_config plain_keys plain_base64 plain_x509 all_access (config key_file).dht;
  host = none;
  started = false;
}

abbrev cert : TlsCertificate ℕ
cert = record { certificate = (9 ∷ 5 ∷ []) ∷ []; private_key = 6 }

abbrev relay : ℕ → Bytes → RelayNode Bytes Bytes ℕ
relay draw key_file =
    relay_node plain_keys plain_base64 plain_x509 all_access (config key_file) cert
      (some (dht_node draw key_file))

abbrev cert_files : Files
cert_files = (text "relay-cert.pem./certs", 9 ∷ 5 ∷ []) ∷ (text "relay-key.pem./certs", 6 ∷ []) ∷ []

made_with_file :
    new_relay plain_keys plain_base64 plain_x509 all_access 5 6 1 0 7
      (config (text "id.key"))
      no_files
    ≡ ((text "id.key", 5 ∷ []) ∷ cert_files, ok (relay 5 (text "id.key")))
unfolding new_relay relay_identity relay_cert relay_dht generate_peer_id_cert load_or_generate
    insert lookup bytes_discrete
made_with_file = refl

not_cert : text "relay-cert.pem./certs" ≢ text "id.key"
not_cert e = ground arith

not_key : text "relay-key.pem./certs" ≢ text "id.key"
not_key e = ground arith

new_relay_lem_example :
    (n : Node Bytes Bytes) × (c : TlsCertificate ℕ) × ((relay 5 (text "id.key")).dht_node ≡ some n)
    × ((relay 5 (text "id.key")).tls_certificates ≡ c ∷ [])
    × ((expected : Bytes)
        → (verify_peer_id plain_x509 c.certificate expected ≡ none)
          ↔ (expected ≡ n.identity.peer_id))
new_relay_lem_example =
    new_relay_lem plain_keys plain_keys-Laws plain_base64 plain_base64-Laws plain_x509
      plain_x509-Laws all_access 5 6 1 0 7 (config (text "id.key")) no_files
      ((text "id.key", 5 ∷ []) ∷ cert_files) (relay 5 (text "id.key")) (λ k. refl) refl refl
      not_cert not_key made_with_file

-- Without a key file the two identities are two draws, and the certificate is not the node's.
made_without_file :
    new_relay plain_keys plain_base64 plain_x509 all_access 5 6 1 0 7 (config []) no_files
    ≡ (cert_files, ok (relay 7 []))
unfolding new_relay relay_identity relay_cert relay_dht generate_peer_id_cert generate
    load_or_generate insert lookup bytes_discrete
made_without_file = refl

rejected_without_file :
    verify_peer_id plain_x509 cert.certificate (dht_node 7 []).identity.peer_id
    ≡ some peer_id_mismatch
unfolding verify_peer_id bytes_discrete
rejected_without_file = refl
