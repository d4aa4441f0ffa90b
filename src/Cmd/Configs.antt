-- ===== src/Cmd/Configs.antt =====
-- The configurations that the commands of cmd/tokengo/main.go run with: flags, or a file.
-- A flag that was not given is `none`; a file is what its loader in internal/config gives.
use token_go.Base.{Bytes, text, List, [], ◌∷◌, Option, none, some, Map, Result, ok, ◌>>=◌}
use token_go.Config.{ClientConfig, RelayConfig, ExitConfig, DhtConfig, ConfigError, or_default}

abbrev pub no_dht : DhtConfig
no_dht = record {
  bootstrap_peers = [];
  listen_addrs = [];
  external_addrs = [];
  private_key_file = [];
  mode = [];
}

abbrev zero_config : ClientConfig
zero_config = record { listen = []; timeout = 0; bootstrap_peers = [] }

abbrev given_or : List Bytes → List Bytes → List Bytes
given_or [] peers = peers
given_or (p ∷ ps) peers = p ∷ ps

-- The command `client`.
unfoldable pub client_config :
    Option (Result ConfigError ClientConfig)
    → Option Bytes
    → List Bytes
    → Result ConfigError ClientConfig
client_config file listen bootstrap_peers =
    (elim file [ none ↦ ok zero_config | some loaded ↦ loaded ]) >>= λ cfg. ok (record cfg {
      listen = or_default (text "127.0.0.1:8080") (elim listen [ none ↦ cfg.listen | some l ↦ l ]);
      bootstrap_peers = given_or bootstrap_peers cfg.bootstrap_peers;
    })

-- The command `relay`: with the flag, the file is not read, and there are no settings of the DHT.
unfoldable pub relay_config :
    Option Bytes → Result ConfigError RelayConfig → Result ConfigError RelayConfig
relay_config none file = file
relay_config (some listen) file = ok (record { listen = listen; dht = no_dht })

abbrev pub default_key_file : Bytes
default_key_file = text "keys/ohttp_private.key"

-- The command `exit`, with a backend or with the file; without a key file, it makes one at the default
-- path first.
unfoldable pub exit_config :
    Bytes
    → Bytes
    → Map Bytes
    → Bytes
    → Result ConfigError ExitConfig
    → Result ConfigError ExitConfig
exit_config [] api_key headers private_key_file file = file
exit_config (b ∷ backend) api_key headers private_key_file file = ok (record {
  ohttp_private_key_file = or_default default_key_file private_key_file;
  ohttp_public_key_file = [];
  ai_backend = record { url = b ∷ backend; api_key = api_key; headers = headers };
  dht = no_dht;
})
