-- ===== src/Client/Life.antt =====
-- The life of the proxy of internal/client/proxy.go: its constructors, `Start` up to the HTTP server,
-- and `Stop`. What a request then does is in Client.Handlers. Progress messages are left out.
pub mod Stopped
use token_go.Base.{
  ℕ, Bytes, text, List, [], ◌∷◌, Option, none, some, Bool, true, false, Result, ok, err, ◌>>=◌,
  if◌then◌else◌,
}
use token_go.Net.{AddrInfo, is_empty}
use token_go.Files.{Access, Files, Base64}
use token_go.Config.{ClientConfig}
use token_go.Identity.{KeyLibrary}
use token_go.Protocol.{ExitKeyEntry}
use token_go.Crypto.Interface.{Hpke}
use token_go.Dht.Node.{Node, NodeConfig, NodeError, Env, new_node, start_node, stop_node}
use token_go.LoadBalancer.Weighted.{Float}
use token_go.Relay.Registry.{Close}
use token_go.Client.Connection.{World, connect, close_client}
use token_go.Client.Requests.{ClientError}
use token_go.Client.Startup.{Client, new_client, new_client_dynamic, discover_and_connect}

-- `dhtCfg` of `NewLocalProxy`.
abbrev pub proxy_dht_config : ClientConfig → NodeConfig
proxy_dht_config cfg = record {
  private_key_path = [];
  bootstrap_peers = cfg.bootstrap_peers;
  listen_addrs = text "/ip4/0.0.0.0/tcp/0" ∷ [];
  external_addrs = [];
  mode = text "client";
  service_type = text "client";
}

module _ (f : Float) where
  open f use {F}

  -- What the network makes of a start: what `DiscoverRelays` finds, and the rest as in `World`.
  pub record Network : Type 0 where
    pub found : Option (List AddrInfo)
    pub dial : Bytes → Bytes → Option ℕ
    pub draw : ℕ → ℕ
    pub unit : F
    pub entries : Result ClientError (List ExitKeyEntry)

  abbrev pub world_of : Network → Bool → World f
  world_of net discovering = record {
    discovery = if discovering then some net.found else none;
    dial = net.dial;
    draw = net.draw;
    unit = net.unit;
  }

module _ (PrivKey PubKey : Type 0) (f : Float) (h : Hpke) (sum256 hex : Bytes → Bytes) where
  pub record LocalProxy : Type 0 where
    pub cfg : ClientConfig
    pub client : Client f h sum256 hex
    pub dht_node : Option (Node PrivKey PubKey)
    -- The discovery is there, and started.
    pub discovering : Bool

  unfoldable pub new_local_proxy :
      KeyLibrary PrivKey PubKey
      → Base64
      → Access
      → ℕ
      → ClientConfig
      → Files
      → Files × Result NodeError LocalProxy
  unfolding new_node new_client_dynamic
  new_local_proxy keys b64 access draw cfg files =
      let (files', n) = new_node keys b64 access draw (proxy_dht_config cfg) files in
      (
        files',
        n >>= λ n. ok (record {
          cfg = cfg;
          client = new_client_dynamic f h sum256 hex;
          dht_node = some n;
          discovering = false;
        }),
      )

  unfoldable pub new_static_proxy : Bytes → Bytes → ℕ → Bytes → LocalProxy
  unfolding new_client
  new_static_proxy listen relay_addr key_id public_key = record {
    cfg = record { listen = listen; timeout = 0; bootstrap_peers = [] };
    client = new_client f h sum256 hex relay_addr key_id public_key;
    dht_node = none;
    discovering = false;
  }

  -- `discoverAndConnect`; its error is only logged.
  abbrev pub discovered : Network f → Bool → LocalProxy → LocalProxy
  discovered net discovering p = record p {
    client =
        (discover_and_connect f h sum256 hex (world_of f net discovering) net.entries p.client).0;
    discovering = discovering;
  }

  -- With the node, once it has been started.
  abbrev pub start_dynamic :
      Env PrivKey PubKey
      → Network f
      → LocalProxy
      → Option (Node PrivKey PubKey)
      → LocalProxy × Option NodeError
  start_dynamic env net p none = (discovered net false p, none)
  start_dynamic env net p (some n) =
      let p' : LocalProxy = record p { dht_node = some (start_node env n).node } in
      elim (start_node env n).error [
        | some e ↦ (p', some e)
        | none ↦ (discovered net true p', none)
      ]

  -- `Start`: what it leaves when the HTTP server is to run, or its error. An error of `Connect` is only
  -- logged.
  unfoldable pub start_proxy :
      Env PrivKey PubKey → Network f → LocalProxy → LocalProxy × Option NodeError
  unfolding start_node discover_and_connect connect
  start_proxy env net p =
      if is_empty p.client.state.relay_addr then start_dynamic env net p p.dht_node else (
        record p {
          client = record p.client { state = (connect f (world_of f net false) p.client.state).0 };
        },
        none,
      )

  -- `Stop` up to the HTTP server's `Shutdown`: what it closes.
  unfoldable pub stop_proxy : Env PrivKey PubKey → LocalProxy → LocalProxy × List Close
  unfolding close_client stop_node
  stop_proxy env p =
      let (state, closes) = close_client f p.client.state in
      (
        record p {
          client = record p.client { state = state };
          dht_node = elim p.dht_node [ none ↦ none | some n ↦ some (stop_node env n).node ];
          discovering = false;
        },
        closes,
      )
