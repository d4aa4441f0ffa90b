-- ===== src/Client/Connection.antt =====
-- How the Client of internal/client/client.go gets a connection: the stored one while it lives, or a
-- new one to its Relay, or to a Relay that the DHT found.
-- `reconnectMu` makes a reconnection one step; the number of a connection stands for its pointer.
pub mod Reconnects
use token_go.Base.{
  ℕ, Bytes, text, List, [], ◌∷◌, Option, none, some, Bool, true, false, Result, ok, err,
  if◌then◌else◌,
}
use token_go.Net.{AddrInfo, extract_quic_address, is_empty}
use token_go.Relay.Registry.{Close}
use token_go.LoadBalancer.Weighted.{
  Float, WeightedSelector, new_weighted_selector, weighted_select, weighted_success,
  weighted_failure,
}

pub data ConnectError : Type 0 where
  discovery_failed no_relays select_failed no_address empty_address dial_failed : ConnectError

module _ (f : Float) where
  open f use {F}

  pub record ClientState : Type 0 where
    pub relay_addr : Bytes
    pub current_relay_id : Bytes
    pub conn : Option ℕ
    pub selector : WeightedSelector f

  unfoldable pub new_client_state : Bytes → ClientState
  unfolding new_weighted_selector
  new_client_state relay_addr = record {
    relay_addr = relay_addr;
    current_relay_id = [];
    conn = none;
    selector = new_weighted_selector f;
  }

  -- What surrounds a reconnection: `discovery` is `none` without a DHT, and then what
  -- `DiscoverRelays` returned; `dial` connects to an address, checking the peer's id if there is one;
  -- `draw` and `unit` are the random numbers of the selector.
  pub record World : Type 0 where
    pub discovery : Option (Option (List AddrInfo))
    pub dial : Bytes → Bytes → Option ℕ
    pub draw : ℕ → ℕ
    pub unit : F

  unfoldable pub connect_to_addr :
      World → Bytes → Bytes → ClientState → ClientState × Result ConnectError (Unit {0})
  connect_to_addr world [] peer_id s = (s, err empty_address)
  connect_to_addr world (a ∷ addr) peer_id s = elim (world.dial (a ∷ addr) peer_id) [
    | none ↦ (s, err dial_failed)
    | some conn ↦
        (record s { conn = some conn; relay_addr = a ∷ addr; current_relay_id = peer_id }, ok tt)
  ]

  abbrev pub failure_of : Bytes → ClientState → ClientState
  failure_of id s = record s { selector = weighted_failure f id s.selector }

  abbrev pub success_of : Bytes → ClientState → ClientState
  success_of id s = record s { selector = weighted_success f id s.selector }

  -- The selector is told how a connection to a Relay went.
  abbrev pub report :
      Bytes
      → ClientState
      → Result ConnectError (Unit {0})
      → ClientState × Result ConnectError (Unit {0})
  report id s (err e) = (failure_of id s, err e)
  report id s (ok u) = (success_of id s, ok u)

  unfoldable pub connect_to_relay :
      World → AddrInfo → ClientState → ClientState × Result ConnectError (Unit {0})
  unfolding connect_to_addr weighted_failure weighted_success
  connect_to_relay world selected s =
      let relay_addr = extract_quic_address selected.addrs in
      if is_empty relay_addr
      then report selected.id s (err no_address)
      else (let (s', r) = connect_to_addr world relay_addr selected.id s in report selected.id s' r)

  unfoldable pub connect_with_discovery :
      World → Option (List AddrInfo) → ClientState → ClientState × Result ConnectError (Unit {0})
  unfolding connect_to_relay
  connect_with_discovery world none s = (s, err discovery_failed)
  connect_with_discovery world (some []) s = (s, err no_relays)
  connect_with_discovery world (some (relay ∷ relays)) s =
      elim (weighted_select f world.draw world.unit s.selector (relay ∷ relays)) [
        | err e ↦ (s, err select_failed)
        | ok selected ↦ connect_to_relay world selected s
      ]

  unfoldable pub close_conn : Option ℕ → List Close
  close_conn none = []
  close_conn (some conn) = record { conn = conn; code = 0; reason = text "reconnecting" } ∷ []

  -- The old connection is closed and forgotten first.
  unfoldable pub connect : World → ClientState → ClientState × Result ConnectError (Unit {0})
  unfolding connect_with_discovery connect_to_addr
  connect world s = elim world.discovery [
    | none ↦ connect_to_addr world s.relay_addr [] (record s { conn = none })
    | some found ↦ connect_with_discovery world found (record s { conn = none })
  ]

  pub record Connected : Type 0 where
    pub state : ClientState
    pub closes : List Close
    pub conn : Result ConnectError (Option ℕ)

  abbrev conn_of : Result ConnectError (Unit {0}) → Option ℕ → Result ConnectError (Option ℕ)
  conn_of (err e) conn = err e
  conn_of (ok u) conn = ok conn

  -- `connect`, and what it closes and `getConnection` then returns.
  unfoldable pub reconnect : World → ClientState → Connected
  unfolding close_conn
  reconnect world s =
      let (s', r) = connect world s in
      record { state = s'; closes = close_conn s.conn; conn = conn_of r s'.conn }

  -- A lost connection is replaced; `alive` is whether a connection's context is not done.
  unfoldable pub use_or_replace : (ℕ → Bool) → World → ClientState → Option ℕ → Connected
  use_or_replace alive world s none = reconnect world s
  use_or_replace alive world s (some conn) =
      if alive conn
      then record { state = s; closes = []; conn = ok (some conn) }
      else reconnect world s

  unfoldable pub get_connection : (ℕ → Bool) → World → ClientState → Connected
  unfolding use_or_replace
  get_connection alive world s = use_or_replace alive world s s.conn

  -- The method `Close`, without its stop of the discovery.
  unfoldable pub close_client : ClientState → ClientState × List Close
  close_client s = elim s.conn [
    | none ↦ (s, [])
    | some conn ↦ (
      record s { conn = none },
      record { conn = conn; code = 0; reason = text "client closed" } ∷ [],
    )
  ]
