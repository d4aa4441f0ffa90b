-- ===== src/Dht/Service/Runs.antt =====
-- A Relay's service in a network in which everything works.
use token_go.Base.{ℕ, text, [], ◌∷◌, none, some, true, false, ◌⊎◌, refl}
use token_go.Dht.Node.{Env}
use token_go.Dht.Provider.{new_provider}
use token_go.Dht.Service.{Service, Table}
use token_go.Dht.Service.Life.{Fails, Serves, start_service_lem}

abbrev good : Env ℕ ℕ
good = record {
  parse_addr = some;
  conn_manager = some tt;
  new_host = λ key listen server. some listen;
  connect_peer = λ p. true;
  bootstrap = true;
  close_host = true;
  parse_peer = λ addr. some (record { id = addr; addrs = addr ∷ [] });
  unmarshal = λ body. none;
  get = λ url. none;
  arrive = λ batches. batches;
  default_peers = (1 ∷ []) ∷ (2 ∷ []) ∷ [];
  urls = [];
}

abbrev table : Table
table = record {
  to_string = λ b. b;
  service_cid = some;
  table_size = 3;
  provide = λ i. true;
  stops = λ i. false;
}

abbrev relay_service : Service ℕ ℕ
relay_service = record {
  node = record {
    identity = record { priv_key = 5; pub_key = 5; peer_id = 1 ∷ [] };
    config = record {
      private_key_path = [];
      bootstrap_peers = [];
      listen_addrs = text "/ip4/10.0.0.1/tcp/4003" ∷ [];
      external_addrs = [];
      mode = text "server";
      service_type = text "relay";
    };
    host = none;
    started = false;
  };
  provider = new_provider (text "relay");
}

start_service_lem_example :
    Fails good table (text "relay") [] 0 relay_service
    ⊎ Serves good table (text "relay") [] 0 relay_service
start_service_lem_example = start_service_lem good table (text "relay") [] 0 relay_service refl
