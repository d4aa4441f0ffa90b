-- ===== src/Dht/Runs.antt =====
-- The theorems about internal/dht at concrete peers.
use mathlib.Core.Logic.{◌↔◌}
use token_go.Base.{
  ℕ, suc, ◌+◌, ◌<◌, Bytes, text, List, [], ◌∷◌, ◌++◌, take, Option, none, some, Bool, true, false,
  Map, lookup, Distinct, Among, ◌⊎◌, ◌==◌, ◌≡◌, refl, arith,
}
use token_go.Net.{AddrInfo}
use token_go.Dht.Discovery.{
  Network, discover_relays, relay_service_namespace, max_discovery_count, cache_refresh_interval,
}
use token_go.Dht.Discovery.Cache.{Event, after, time, asked, Wanted, discover_relays_lem}
use token_go.Dht.Provider.{
  Provider, ServiceInfo, RegisterError, register_service, start_refresh, new_provider, max_retries,
}
use token_go.Dht.Provider.Attempts.{FirstSuccess, Fails, retry_waits, register_service_lem}
use token_go.Dht.Node.{Node, NodeError, Env, start_node}
use token_go.Dht.Node.Life.{Runs, Leaks, start_node_lem}
use token_go.Dht.Bootstrap.{merge_batches}
use token_go.Dht.Bootstrap.Merge.{addrs_of, collected_all, merge_batches_lem}

abbrev two_batches : List (List AddrInfo)
two_batches =
    (record { id = 1 ∷ []; addrs = text "/ip4/10.0.0.1/tcp/4003" ∷ [] } ∷ [])
    ∷ (record { id = 1 ∷ []; addrs = text "/ip4/10.0.0.2/tcp/4003" ∷ [] } ∷ [])
    ∷ []

abbrev no_peers : Map AddrInfo
no_peers = []

merge_batches_lem_example :
    (addrs_of (1 ∷ []) (merge_batches two_batches no_peers)
      ≡ [] ++ collected_all (1 ∷ []) two_batches)
    × Distinct (merge_batches two_batches no_peers)
unfolding lookup
merge_batches_lem_example = merge_batches_lem (1 ∷ []) two_batches no_peers tt

-- A DHT that knows the node itself, a peer without addresses, and one to be used.
abbrev one_relay : Network
one_relay cid n =
    record { id = 1 ∷ []; addrs = text "/ip4/10.0.0.1/udp/4433" ∷ [] }
    ∷ record { id = 2 ∷ []; addrs = [] }
    ∷ record { id = 3 ∷ []; addrs = text "/ip4/10.0.0.3/udp/4433" ∷ [] }
    ∷ []

abbrev earlier : List Event
earlier = Event.refreshed 7 one_relay ∷ []

abbrev plain_cid : Bytes → Option Bytes
plain_cid = some

discover_relays_lem_example :
    (peers : List AddrInfo) × (e : Event) × ((discover_relays plain_cid 8 one_relay
        (after plain_cid (1 ∷ []) earlier)).1
      ≡ some peers)
    × Among e (Event.discovered 8 one_relay ∷ earlier)
    × (8 < time e + cache_refresh_interval)
    × ((p : AddrInfo)
        → Among p peers ↔ Wanted (1 ∷ []) p (asked e relay_service_namespace max_discovery_count))
discover_relays_lem_example =
    discover_relays_lem plain_cid relay_service_namespace refl (1 ∷ []) earlier 8 one_relay

abbrev relay_info : ServiceInfo
relay_info = record {
  peer_id = 1 ∷ [];
  service_type = text "relay";
  addrs = [];
  public_key = [];
  key_id = 0;
}

-- The third attempt succeeds.
abbrev third : ℕ → Bool
third i = i == 2

abbrev never : ℕ → Bool
never i = false

abbrev relay_provider : Provider
relay_provider = new_provider (text "relay")

register_service_lem_example :
    ((k : ℕ) × (k < max_retries)
      × FirstSuccess third never 0 k
      × (register_service plain_cid 4 third never relay_info relay_provider ≡ (
        start_refresh (record relay_provider { service_info = some relay_info }),
        record { waits = take k retry_waits; provides = suc k; error = none },
      )))
    ⊎ ((e : RegisterError) × ((register_service plain_cid 4 third never relay_info
            relay_provider).1.error
          ≡ some e)
        × ((register_service plain_cid 4 third never relay_info relay_provider).0
            ≡ record relay_provider { service_info = some relay_info })
        × Fails third never 0 max_retries e)
register_service_lem_example =
    register_service_lem plain_cid 4 third never relay_info relay_provider relay_provider.namespace
      refl (omega arith)

-- A network in which everything works but `Bootstrap`.
abbrev no_bootstrap : Env ℕ ℕ
no_bootstrap = record {
  parse_addr = some;
  conn_manager = some tt;
  new_host = λ key listen server. some listen;
  connect_peer = λ p. true;
  bootstrap = false;
  close_host = true;
  parse_peer = λ addr. some (record { id = addr; addrs = addr ∷ [] });
  unmarshal = λ body. none;
  get = λ url. none;
  arrive = λ batches. batches;
  default_peers = (1 ∷ []) ∷ (2 ∷ []) ∷ [];
  urls = [];
}

abbrev idle_node : Node ℕ ℕ
idle_node = record {
  identity = record { priv_key = 5; pub_key = 5; peer_id = 1 ∷ [] };
  config = record {
    private_key_path = [];
    bootstrap_peers = [];
    listen_addrs = [];
    external_addrs = [];
    mode = text "server";
    service_type = text "relay";
  };
  host = none;
  started = false;
}

start_node_lem_example :
    Runs no_bootstrap idle_node (start_node no_bootstrap idle_node)
    ⊎ ((e : NodeError) × (start_node no_bootstrap idle_node
          ≡ record { node = idle_node; dialed = []; connected = 0; error = some e }))
    ⊎ Leaks no_bootstrap (start_node no_bootstrap idle_node)
start_node_lem_example = start_node_lem no_bootstrap idle_node refl
