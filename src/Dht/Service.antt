-- ===== src/Dht/Service.antt =====
-- How a Relay and an Exit announce themselves: the DHT's part of `Start` and `Stop` in
-- internal/relay/relay.go and internal/exit/exit.go, which are alike.
pub mod Life
mod Runs
use token_go.Base.{ℕ, Bytes, Option, none, some, Bool}
use token_go.Dht.Node.{Node, NodeError, Env, start_node, stop_node, full_addrs}
use token_go.Dht.Provider.{Provider, ServiceInfo, register_service, unregister}

-- The DHT node of a Relay or an Exit, and the provider that comes with it.
pub record Service (PrivKey PubKey : Type 0) : Type 0 where
  pub node : Node PrivKey PubKey
  pub provider : Provider

-- What surrounds `Register`: see `register_service`. `to_string` is the text of a peer id.
pub record Table : Type 0 where
  pub to_string : Bytes → Bytes
  pub service_cid : Bytes → Option Bytes
  pub table_size : ℕ
  pub provide : ℕ → Bool
  pub stops : ℕ → Bool

-- What `Start` leaves, and its error.
pub record Outcome (PrivKey PubKey : Type 0) : Type 0 where
  pub service : Option (Service PrivKey PubKey)
  pub error : Option NodeError

module _ {PrivKey PubKey : Type 0} (env : Env PrivKey PubKey) (table : Table)
    (service_type public_key : Bytes) (key_id : ℕ) where
  unfoldable pub service_info : Node PrivKey PubKey → ServiceInfo
  unfolding full_addrs
  service_info n = record {
    peer_id = n.identity.peer_id;
    service_type = service_type;
    addrs = full_addrs table.to_string n;
    public_key = public_key;
    key_id = key_id;
  }

  -- An error of `Register` is only logged.
  abbrev pub announce : Node PrivKey PubKey → Provider → Service PrivKey PubKey
  announce n p = record {
    node = n;
    provider =
        (register_service table.service_cid table.table_size table.provide table.stops
          (service_info n) p).0;
  }

  -- Without a DHT node there is nothing to do.
  unfoldable pub start_service : Option (Service PrivKey PubKey) → Outcome PrivKey PubKey
  unfolding start_node register_service service_info
  start_service none = record { service = none; error = none }
  start_service (some s) = elim (start_node env s.node).error [
    | some e ↦ record {
      service = some (record s { node = (start_node env s.node).node });
      error = some e;
    }
    | none ↦ record {
      service = some (announce (start_node env s.node).node s.provider);
      error = none;
    }
  ]

module _ {PrivKey PubKey : Type 0} (env : Env PrivKey PubKey) where
  -- The errors are not looked at.
  unfoldable pub stop_service : Option (Service PrivKey PubKey) → Option (Service PrivKey PubKey)
  unfolding stop_node unregister
  stop_service none = none
  stop_service (some s) =
      some (record { node = (stop_node env s.node).node; provider = unregister s.provider })
