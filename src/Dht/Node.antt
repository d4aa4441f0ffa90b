-- ===== src/Dht/Node.antt =====
-- internal/dht/node.go: the life of a DHT node.
-- libp2p, its DHT and the parsing of multiaddrs are the parameter `Env`; so is what the network makes
-- of each call.
pub mod Life
use token_go.Base.{
  ℕ, zero, suc, ◌+◌, Bytes, text, List, [], ◌∷◌, ◌++◌, map, length, Option, none, some, Bool, true,
  false, Result, ok, err, ◌>>=◌, map_err, bytes_discrete, ite, ltb, if◌then◌else◌,
}
use token_go.Net.{AddrInfo}
use token_go.Files.{Files, Access, Base64}
use token_go.Identity.{KeyLibrary, Identity, IdentityError, load_or_generate}
use token_go.Dht.Bootstrap.{BootstrapPeerList, Fetched, no_addrs, resolve_bootstrap_peers}

-- The type `Config`.
pub record NodeConfig : Type 0 where
  pub private_key_path : Bytes
  pub bootstrap_peers : List Bytes
  pub listen_addrs : List Bytes
  pub external_addrs : List Bytes
  pub mode : Bytes
  pub service_type : Bytes

-- A libp2p host: the addresses that it listens on, and those that it tells others.
pub record Host : Type 0 where
  pub listening : List Bytes
  pub addrs : List Bytes

pub data NodeError : Type 0 where
  identity_failed : IdentityError → NodeError
  listen_addr_failed : Bytes → NodeError
  conn_manager_failed host_failed bootstrap_failed close_failed : NodeError

abbrev pub or_fail {ℓ} : {A : Type ℓ} → NodeError → Option A → Result NodeError A
or_fail e none = err e
or_fail e (some a) = ok a

pub record Node (PrivKey PubKey : Type 0) : Type 0 where
  pub identity : Identity PrivKey PubKey
  pub config : NodeConfig
  -- The host, and the DHT on it.
  pub host : Option Host
  pub started : Bool

pub record Env (PrivKey PubKey : Type 0) : Type 0 where
  pub parse_addr : Bytes → Option Bytes
  pub conn_manager : Option (Unit {0})
  -- `libp2p.New` with the key, the addresses, and whether the mode is that of a server: the
  -- addresses that the host finds itself.
  pub new_host : PrivKey → List Bytes → Bool → Option (List Bytes)
  pub connect_peer : AddrInfo → Bool
  pub bootstrap : Bool
  pub close_host : Bool
  pub parse_peer : Bytes → Option AddrInfo
  pub unmarshal : Bytes → Option BootstrapPeerList
  pub get : Bytes → Option Fetched
  pub arrive : List (List AddrInfo) → List (List AddrInfo)
  pub default_peers : List Bytes
  pub urls : List Bytes

unfoldable pub parse_listen_addrs :
    (Bytes → Option Bytes) → List Bytes → Result NodeError (List Bytes)
parse_listen_addrs parse [] = ok []
parse_listen_addrs parse (addr ∷ addrs) =
    or_fail (NodeError.listen_addr_failed addr) (parse addr) >>= λ ma.
    parse_listen_addrs parse addrs >>= λ mas. ok (ma ∷ mas)

-- An external address that cannot be parsed is left out.
unfoldable pub parse_external_addrs : (Bytes → Option Bytes) → List Bytes → List Bytes
parse_external_addrs parse [] = []
parse_external_addrs parse (addr ∷ addrs) =
    let rest = parse_external_addrs parse addrs in
    elim (parse addr) [ none ↦ rest | some ma ↦ ma ∷ rest ]

-- The function given to `libp2p.AddrsFactory`, if there is one.
unfoldable pub advertised : List Bytes → List Bytes → List Bytes
advertised external addrs = if no_addrs external then addrs else external ++ addrs

-- The node does not connect to itself.
unfoldable pub other_peers : Bytes → List AddrInfo → List AddrInfo
unfolding bytes_discrete
other_peers self [] = []
other_peers self (p ∷ ps) =
    let rest = other_peers self ps in ite (bytes_discrete p.id self) rest (p ∷ rest)

abbrev pub count_connected : (AddrInfo → Bool) → List AddrInfo → ℕ
count_connected connect [] = 0
count_connected connect (p ∷ ps) =
    let rest = count_connected connect ps in if connect p then suc rest else rest

-- What a call of `Start` leaves, whom it dialed, how many of them it reached, and its error.
pub record Started (PrivKey PubKey : Type 0) : Type 0 where
  pub node : Node PrivKey PubKey
  pub dialed : List AddrInfo
  pub connected : ℕ
  pub error : Option NodeError

-- What `Stop` leaves, whether it closed the host, and its error.
pub record Stopped (PrivKey PubKey : Type 0) : Type 0 where
  pub node : Node PrivKey PubKey
  pub closed : Bool
  pub error : Option NodeError

-- `%s/p2p/%s`
abbrev pub with_peer_id : Bytes → Bytes → Bytes
with_peer_id peer_id addr = addr ++ (text "/p2p/" ++ peer_id)

module _ {PrivKey PubKey : Type 0} where
  unfoldable pub new_node :
      KeyLibrary PrivKey PubKey
      → Base64
      → Access
      → ℕ
      → NodeConfig
      → Files
      → Files × Result NodeError (Node PrivKey PubKey)
  unfolding load_or_generate
  new_node lib b64 access draw cfg files =
      let (files', id) = load_or_generate lib b64 access draw cfg.private_key_path files in
      (
        files',
        map_err NodeError.identity_failed id >>= λ id.
            ok (record { identity = id; config = cfg; host = none; started = false }),
      )

  -- The peers that are dialed.
  unfoldable pub connect_bootstrap_peers : Env PrivKey PubKey → Node PrivKey PubKey → List AddrInfo
  unfolding other_peers resolve_bootstrap_peers
  connect_bootstrap_peers env n = other_peers n.identity.peer_id (
      resolve_bootstrap_peers env.parse_peer env.unmarshal env.get env.arrive env.default_peers
        env.urls n.config.bootstrap_peers)

  abbrev pub new_host_of : Env PrivKey PubKey → Node PrivKey PubKey → Result NodeError Host
  new_host_of env n = parse_listen_addrs env.parse_addr n.config.listen_addrs >>= λ listen.
      or_fail NodeError.conn_manager_failed env.conn_manager >>= λ manager.
      or_fail NodeError.host_failed (
        env.new_host n.identity.priv_key listen
          (ite (bytes_discrete n.config.mode (text "server")) true false))
      >>= λ addrs. ok (record {
        listening = listen;
        addrs = advertised (parse_external_addrs env.parse_addr n.config.external_addrs) addrs;
      })

  -- From the host on.
  unfoldable pub run_host : Env PrivKey PubKey → Node PrivKey PubKey → Host → Started PrivKey PubKey
  unfolding connect_bootstrap_peers
  run_host env n h =
      let dialed = connect_bootstrap_peers env n in
      let connected = count_connected env.connect_peer dialed in
      if env.bootstrap
      then record {
        node = record n { host = some h; started = true };
        dialed = dialed;
        connected = connected;
        error = none;
      }
      else record {
        node = record n { host = some h };
        dialed = dialed;
        connected = connected;
        error = some NodeError.bootstrap_failed;
      }

  unfoldable pub start_node : Env PrivKey PubKey → Node PrivKey PubKey → Started PrivKey PubKey
  unfolding run_host parse_listen_addrs parse_external_addrs advertised
  start_node env n =
      if n.started
      then record { node = n; dialed = []; connected = 0; error = none }
      else (elim (new_host_of env n) [
        | err e ↦ record { node = n; dialed = []; connected = 0; error = some e }
        | ok h ↦ run_host env n h
      ])

  abbrev stop_host : Env PrivKey PubKey → Node PrivKey PubKey → Option Host → Stopped PrivKey PubKey
  stop_host env n none = record {
    node = record n { started = false };
    closed = false;
    error = none;
  }
  stop_host env n (some h) =
      if env.close_host
      then record { node = record n { started = false }; closed = true; error = none }
      else record { node = n; closed = true; error = some NodeError.close_failed }

  unfoldable pub stop_node : Env PrivKey PubKey → Node PrivKey PubKey → Stopped PrivKey PubKey
  stop_node env n =
      if n.started
      then stop_host env n n.host
      else record { node = n; closed = false; error = none }

  unfoldable pub full_addrs : (Bytes → Bytes) → Node PrivKey PubKey → List Bytes
  full_addrs to_string n = elim n.host [
    | none ↦ []
    | some h ↦ map (with_peer_id (to_string n.identity.peer_id)) h.addrs
  ]

  -- `peers` is what `Network().Peers()` of the host gives.
  unfoldable pub connected_peers : List Bytes → Node PrivKey PubKey → ℕ
  connected_peers peers n = elim n.host [ none ↦ 0 | some h ↦ length peers ]

-- The polls of the routing table: `size i` is its size at the i-th poll, every half a second; after
-- the last one the ten seconds are over. `true` is no error.
unfoldable pub wait_for_routing_table : (ℕ → ℕ) → (ℕ → Bool) → ℕ → ℕ → Bool
wait_for_routing_table size done zero i = ltb 0 (size i)
wait_for_routing_table size done (suc polls) i =
    let rest = wait_for_routing_table size done polls (suc i) in
    if done i then false else (if ltb 0 (size i) then true else rest)
