-- ===== src/Cmd/Serve/Runs.antt =====
-- `serve` in an empty directory.
use token_go.Base.{
  ℕ, Bytes, text, [], ◌∷◌, none, some, true, ok, ◌≡◌, ◌≢◌, refl, arith, insert, lookup,
  bytes_discrete,
}
use token_go.Files.{Files, read_file}
use token_go.Identity.{generate}
use token_go.Identity.Samples.{
  plain_keys, plain_keys-Laws, plain_base64, plain_base64-Laws, all_access,
}
use token_go.Cert.{TlsCertificate, generate_peer_id_cert}
use token_go.Cert.Samples.{plain_x509, plain_x509-Laws}
use token_go.Crypto.Samples.{plain_hpke, plain_gcm, plain_http}
use token_go.Crypto.Ohttp.{new_ohttp_client}
use token_go.Crypto.Keys.Stored.{generate_key_pair, save_key_pair, load_public_key_config}
use token_go.LoadBalancer.Samples.{numbers}
use token_go.Exit.Samples.{echo_http}
use token_go.Exit.Node.{exit_node, ensure_ohttp_key, new_exit_node}
use token_go.Exit.Node.Samples.{plain_scheme, public_text, no_files}
use token_go.Relay.Node.{relay_node, new_relay, relay_identity, relay_cert, relay_dht}
use token_go.Client.Startup.{new_client}
use token_go.Cmd.Serve.{Flags, Chances, Serving, serve, relay_addr, relay_cfg, exit_cfg}
use token_go.Cmd.Serve.Agrees.{serve_agrees, public_file}

abbrev same : Bytes → Bytes
same b = b

abbrev flags : Flags
flags = record {
  backend = text "http://localhost:11434";
  api_key = [];
  headers = [];
  listen = text ":8080";
}

abbrev chances : Chances
chances = record {
  draw_key = 6;
  key_id = some 9;
  draw_identity = 5;
  draw_cert = 6;
  serial = 1;
  now = 0;
  draw_dht = 7;
  made = true;
  exit_ready = true;
}

abbrev Parts : Type 0
Parts =
    Serving plain_keys plain_base64 plain_x509 all_access plain_hpke plain_gcm plain_http echo_http
      plain_scheme numbers same same same

abbrev cert : TlsCertificate ℕ
cert = record { certificate = (9 ∷ 5 ∷ []) ∷ []; private_key = 6 }

abbrev parts : Parts
parts = record {
  relay = relay_node plain_keys plain_base64 plain_x509 all_access relay_cfg cert none;
  exit =
      exit_node plain_hpke plain_gcm plain_http echo_http plain_base64 same same all_access
        (exit_cfg same flags) relay_addr (6 ∷ 2 ∷ []) 9 (6 ∷ 1 ∷ []);
  client = new_client numbers plain_hpke same same relay_addr 9 (6 ∷ 1 ∷ []);
  listen = text ":8080";
}

abbrev files : Files
files =
    (text "keys/ohttp_private.key.pub", public_text)
    ∷ (text "keys/ohttp_private.key", 6 ∷ 2 ∷ [])
    ∷ (text "relay-cert.pem./certs", 9 ∷ 5 ∷ [])
    ∷ (text "relay-key.pem./certs", 6 ∷ [])
    ∷ []

served :
    serve plain_keys plain_base64 plain_x509 all_access plain_hpke plain_gcm plain_http echo_http
      plain_scheme numbers same same same chances flags no_files
    ≡ (files, ok parts)
unfolding serve generate_key_pair save_key_pair ensure_ohttp_key new_relay new_exit_node
    generate_peer_id_cert generate relay_identity relay_cert relay_dht load_public_key_config insert
    lookup bytes_discrete read_file
served = refl

not_cert : text "relay-cert.pem./certs" ≢ public_file
not_cert e = ground arith

not_key : text "relay-key.pem./certs" ≢ public_file
not_key e = ground arith

serve_agrees_example :
    (parts.client.exit_pub_key_hash ≡ parts.exit.pub_key_hash)
    × (parts.client.ohttp_client ≡ some (record { key_id = 9; pub_key_raw = 6 ∷ 1 ∷ [] }))
    × (parts.client.state.relay_addr ≡ relay_addr)
unfolding new_ohttp_client
serve_agrees_example =
    serve_agrees plain_keys plain_keys-Laws plain_base64 plain_base64-Laws plain_x509
      plain_x509-Laws all_access plain_hpke plain_gcm plain_http echo_http plain_scheme numbers same
      same same not_cert not_key chances flags no_files files parts served
