-- ===== src/Cmd/Serve.antt =====
-- The command `serve` of cmd/tokengo/main.go: a Relay, an Exit and a Client in one process.
-- What the parts then do is in their own modules; here they are made, with the files that each of
-- them reads and writes.
pub mod Agrees
mod Runs
use token_go.Base.{
  ℕ, Bytes, text, List, [], ◌++◌, Option, Bool, true, false, Result, ok, err, if◌then◌else◌,
}
use token_go.Net.{is_empty}
use token_go.Files.{Access, Files, Base64}
use token_go.Config.{ExitConfig, RelayConfig}
use token_go.Identity.{KeyLibrary}
use token_go.Cert.{X509}
use token_go.Crypto.Interface.{Hpke, Gcm, Http}
use token_go.Crypto.Keys.Stored.{Scheme, KeyError, load_public_key_config}
use token_go.LoadBalancer.Weighted.{Float}
use token_go.Exit.Handler.{HttpLib}
use token_go.Exit.Node.{ExitNode, ExitError, EnsureError, new_exit_node, ensure_ohttp_key}
use token_go.Relay.Node.{RelayNode, RelayError, new_relay}
use token_go.Client.Startup.{Client, new_client}
use token_go.Cmd.{parse_headers}
use token_go.Cmd.Configs.{no_dht, default_key_file}

pub data ServeError : Type 0 where
  no_backend : ServeError
  ensure_failed : EnsureError → ServeError
  public_key_failed : KeyError → ServeError
  relay_failed : RelayError → ServeError
  exit_failed : ExitError → ServeError
  exit_timeout : ServeError

-- The flags `--backend`, `--api-key`, `--header` and `--listen`.
pub record Flags : Type 0 where
  pub backend : Bytes
  pub api_key : Bytes
  pub headers : List Bytes
  pub listen : Bytes

-- The random draws of the keys, of the certificate and of the DHT node, the time, whether the
-- directory of the keys can be made, and whether the Exit is ready within five seconds.
pub record Chances : Type 0 where
  pub draw_key : ℕ
  pub key_id : Option ℕ
  pub draw_identity : ℕ
  pub draw_cert : ℕ
  pub serial : ℕ
  pub now : ℕ
  pub draw_dht : ℕ
  pub made : Bool
  pub exit_ready : Bool

abbrev pub relay_listen : Bytes
relay_listen = text ":4433"

abbrev pub relay_addr : Bytes
relay_addr = text "127.0.0.1" ++ relay_listen

abbrev pub relay_cfg : RelayConfig
relay_cfg = record { listen = relay_listen; dht = no_dht }

abbrev pub exit_cfg : (Bytes → Bytes) → Flags → ExitConfig
exit_cfg trim flags = record {
  ohttp_private_key_file = default_key_file;
  ohttp_public_key_file = [];
  ai_backend = record {
    url = flags.backend;
    api_key = flags.api_key;
    headers = parse_headers trim flags.headers;
  };
  dht = no_dht;
}

module _ {PrivKey PubKey Key Public Private : Type 0} (keys : KeyLibrary PrivKey PubKey)
    (b64 : Base64) (x : X509 PrivKey Key) (access : Access) (h : Hpke) (g : Gcm) (w : Http)
    (lib : HttpLib w) (scheme : Scheme Public Private) (f : Float)
    (sum256 hex trim : Bytes → Bytes) where
  -- The parts, and the address on which the Client's proxy listens.
  pub record Serving : Type 0 where
    pub relay : RelayNode PrivKey PubKey Key
    pub exit : ExitNode h g w lib b64 sum256 hex access
    pub client : Client f h sum256 hex
    pub listen : Bytes

  abbrev Outcome : Type 0
  Outcome = Files × Result ServeError Serving

  -- `client.NewStaticProxy`, once the Exit is ready.
  abbrev with_exit :
      Chances
      → Flags
      → ℕ × Bytes
      → RelayNode PrivKey PubKey Key
      → Result ExitError (ExitNode h g w lib b64 sum256 hex access)
      → Result ServeError Serving
  with_exit c flags key relay (err e) = err (exit_failed e)
  with_exit c flags key relay (ok exit) =
      if c.exit_ready
      then ok (record {
        relay = relay;
        exit = exit;
        client = new_client f h sum256 hex relay_addr key.0 key.1;
        listen = flags.listen;
      })
      else err exit_timeout

  abbrev with_relay :
      Chances
      → Flags
      → ℕ × Bytes
      → Files × Result RelayError (RelayNode PrivKey PubKey Key)
      → Outcome
  with_relay c flags key (files, err e) = (files, err (relay_failed e))
  with_relay c flags key (files, ok relay) = (
    files,
    with_exit c flags key relay
        (new_exit_node h g w lib b64 sum256 hex access (exit_cfg trim flags) relay_addr files),
  )

  abbrev with_key : Chances → Flags → Files → Result KeyError (ℕ × Bytes) → Outcome
  with_key c flags files (err e) = (files, err (public_key_failed e))
  with_key c flags files (ok key) = with_relay c flags key (
      new_relay keys b64 x access c.draw_identity c.draw_cert c.serial c.now c.draw_dht relay_cfg
        files)

  abbrev with_pub_key : Chances → Flags → Files × Result EnsureError Bytes → Outcome
  with_pub_key c flags (files, err e) = (files, err (ensure_failed e))
  with_pub_key c flags (files, ok pub_key) =
      with_key c flags files (load_public_key_config b64 pub_key)

  unfoldable pub serve : Chances → Flags → Files → Outcome
  unfolding ensure_ohttp_key load_public_key_config new_relay new_exit_node new_client parse_headers
  serve c flags files =
      if is_empty flags.backend
      then (files, err no_backend)
      else with_pub_key c flags
          (ensure_ohttp_key h b64 access scheme c.made c.draw_key c.key_id default_key_file files)
