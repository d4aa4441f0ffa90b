-- ===== src/Exit/Node.antt =====
-- internal/exit/exit.go: an Exit's parts, put together; and `ensureOHTTPKey` of cmd/tokengo/main.go,
-- which makes the keys of an Exit that has none.
pub mod Keys
pub mod Samples
mod Runs
use token_go.Base.{
  ℕ, Bytes, text, List, Option, none, some, Bool, true, false, ◌++◌, Result, ok, err, ◌>>=◌,
  map_err, if◌then◌else◌, not,
}
use token_go.Net.{is_empty}
use token_go.Files.{Access, Files, Base64, read_file, exists}
use token_go.Config.{ExitConfig, AiBackend, DhtConfig}
use token_go.Identity.{KeyLibrary}
use token_go.Dht.Node.{NodeConfig, NodeError, new_node}
use token_go.Dht.Provider.{new_provider}
use token_go.Dht.Service.{Service}
use token_go.Crypto.Interface.{Hpke, Gcm, Http}
use token_go.Crypto.Keys.{encode_key_config}
use token_go.Crypto.Keys.Stored.{
  KeyPair, Scheme, KeyError, generate_key_pair, save_key_pair, load_public_key_config, pub_key_hash,
}
use token_go.Exit.Backend.{AiClient}
use token_go.Exit.Handler.{HttpLib, OhttpHandler, new_ohttp_handler}

pub data ExitError : Type 0 where
  read_private_failed decode_private_failed read_public_failed : ExitError
  public_config_failed : KeyError → ExitError

abbrev pub or_fail {ℓ} : {A : Type ℓ} → ExitError → Option A → Result ExitError A
or_fail e none = err e
or_fail e (some a) = ok a

-- An explicit path of the public key, or the private key's path with `.pub`.
abbrev pub public_path : ExitConfig → Bytes
public_path cfg =
    if is_empty cfg.ohttp_public_key_file
    then cfg.ohttp_private_key_file ++ text ".pub"
    else cfg.ohttp_public_key_file

-- `NewAIClient`
unfoldable pub new_ai_client : AiBackend → AiClient
new_ai_client backend = record {
  base_url = backend.url;
  api_key = backend.api_key;
  headers = backend.headers;
}

module _ (h : Hpke) (g : Gcm) (w : Http) (lib : HttpLib w) (b64 : Base64)
    (sum256 hex : Bytes → Bytes) (access : Access) where
  -- With what the tunnel registers: `pub_key_hash` and `key_config`.
  pub record ExitNode : Type 0 where
    pub cfg : ExitConfig
    pub ohttp_handler : OhttpHandler h g w lib
    pub public_key : Bytes
    pub key_id : ℕ
    pub static_relay : Bytes
    pub pub_key_hash : Bytes
    pub key_config : Bytes

  abbrev pub exit_node : ExitConfig → Bytes → Bytes → ℕ → Bytes → ExitNode
  exit_node cfg static_relay private_key key_id public_key = record {
    cfg = cfg;
    ohttp_handler =
        new_ohttp_handler h g w lib key_id private_key public_key (new_ai_client cfg.ai_backend);
    public_key = public_key;
    key_id = key_id;
    static_relay = static_relay;
    pub_key_hash = pub_key_hash sum256 hex public_key;
    key_config = encode_key_config h key_id public_key;
  }

  -- `newExitNode` up to the DHT's part.
  unfoldable pub new_exit_node : ExitConfig → Bytes → Files → Result ExitError ExitNode
  unfolding read_file
  new_exit_node cfg static_relay files =
      or_fail ExitError.read_private_failed (read_file access cfg.ohttp_private_key_file files)
      >>= λ content.
          or_fail ExitError.decode_private_failed (b64.decode_string content) >>= λ private_key.
          or_fail ExitError.read_public_failed (read_file access (public_path cfg) files)
          >>= λ pub_content.
              map_err ExitError.public_config_failed (load_public_key_config b64 pub_content)
              >>= λ key. ok (exit_node cfg static_relay private_key key.0 key.1)

abbrev pub exit_dht_config : DhtConfig → NodeConfig
exit_dht_config dht = record {
  private_key_path = dht.private_key_file;
  bootstrap_peers = dht.bootstrap_peers;
  listen_addrs = dht.listen_addrs;
  external_addrs = dht.external_addrs;
  mode = text "server";
  service_type = text "exit";
}

-- The DHT's part of `newExitNode`: with the address of a Relay there is none.
unfoldable pub exit_service :
    {PrivKey PubKey : Type 0}
    → KeyLibrary PrivKey PubKey
    → Base64
    → Access
    → ℕ
    → DhtConfig
    → Bytes
    → Files
    → Files × Result NodeError (Option (Service PrivKey PubKey))
unfolding new_node new_provider
exit_service keys b64 access draw dht static_relay files =
    if is_empty static_relay
    then (let (files', n) = new_node keys b64 access draw (exit_dht_config dht) files in
        (files', n >>= λ n. ok (some (record { node = n; provider = new_provider (text "exit") }))))
    else (files, ok none)

pub data EnsureError : Type 0 where
  mkdir_failed read_public_failed : EnsureError
  generate_failed save_failed : KeyError → EnsureError

module _ (h : Hpke) (b64 : Base64) (access : Access) {Public Private : Type 0}
    (scheme : Scheme Public Private) where
  abbrev read_public : Bytes → Files → Result EnsureError Bytes
  read_public key_file files = elim (read_file access (key_file ++ text ".pub") files) [
    | none ↦ err EnsureError.read_public_failed
    | some content ↦ ok content
  ]

  -- Behind a call of `SaveKeyPair`.
  abbrev read_saved : Bytes → Files × Result KeyError (Unit {0}) → Files × Result EnsureError Bytes
  read_saved key_file (files, err e) = (files, err (EnsureError.save_failed e))
  read_saved key_file (files, ok u) = (files, read_public key_file files)

  abbrev generate_and_save :
      Bytes → Files → Result KeyError KeyPair → Files × Result EnsureError Bytes
  generate_and_save key_file files (err e) = (files, err (EnsureError.generate_failed e))
  generate_and_save key_file files (ok kp) =
      read_saved key_file (save_key_pair h b64 access kp (key_file ++ text ".pub") key_file files)

  -- `made` tells whether `MkdirAll` of the file's directory succeeds.
  unfoldable pub ensure_ohttp_key :
      Bool → ℕ → Option ℕ → Bytes → Files → Files × Result EnsureError Bytes
  unfolding exists generate_key_pair
  ensure_ohttp_key made draw random key_file files =
      if made
      then (if exists key_file files
          then (files, read_public key_file files)
          else generate_and_save key_file files (generate_key_pair scheme draw random))
      else (files, err EnsureError.mkdir_failed)
