-- ===== src/Client/Startup.antt =====
-- How a Client gets its Relay and its Exit: the constructors, `SetExit` and `SetRelay` of
-- internal/client/client.go, and `discoverAndConnect` of internal/client/proxy.go.
-- The Relay's answer to the query is an argument; `sum256` and `hex` are SHA-256 and hexadecimal text.
pub mod Chosen
pub mod Relayed
mod Runs
use token_go.Base.{ℕ, Bytes, [], List, Option, none, some, Result, ok, err}
use token_go.Protocol.{ExitKeyEntry}
use token_go.Crypto.Interface.{Hpke}
use token_go.Crypto.Ohttp.{OhttpClient, new_ohttp_client}
use token_go.Crypto.Keys.Stored.{pub_key_hash}
use token_go.LoadBalancer.Weighted.{Float}
use token_go.Client.Connection.{ClientState, World, ConnectError, connect, new_client_state}
use token_go.Client.Requests.{ClientError}
use token_go.Client.Proxy.{DiscoverError, discover_exit}

pub data StartupError : Type 0 where
  connect_failed : ConnectError → StartupError
  discover_failed : DiscoverError → StartupError

module _ (f : Float) (h : Hpke) (sum256 hex : Bytes → Bytes) where
  pub record Client : Type 0 where
    pub state : ClientState f
    pub exit_pub_key_hash : Bytes
    pub ohttp_client : Option (OhttpClient h)

  unfoldable pub new_client : Bytes → ℕ → Bytes → Client
  unfolding new_client_state new_ohttp_client pub_key_hash
  new_client relay_addr key_id exit_public_key = record {
    state = new_client_state f relay_addr;
    exit_pub_key_hash = pub_key_hash sum256 hex exit_public_key;
    ohttp_client = some (new_ohttp_client h key_id exit_public_key);
  }

  unfoldable pub new_client_dynamic : Client
  unfolding new_client_state
  new_client_dynamic = record {
    state = new_client_state f [];
    exit_pub_key_hash = [];
    ohttp_client = none;
  }

  unfoldable pub set_exit : ℕ → Bytes → Client → Client
  unfolding new_ohttp_client pub_key_hash
  set_exit key_id public_key c = record c {
    exit_pub_key_hash = pub_key_hash sum256 hex public_key;
    ohttp_client = some (new_ohttp_client h key_id public_key);
  }

  -- An open connection, and the id of its Relay, stay until the next `connect`.
  unfoldable pub set_relay : Bytes → Client → Client
  set_relay relay_addr c =
      let state = c.state in record c { state = record state { relay_addr = relay_addr } }

  abbrev exit_set :
      Client → Result DiscoverError (ℕ × Bytes) → Client × Result StartupError (Unit {0})
  exit_set c (err e) = (c, err (StartupError.discover_failed e))
  exit_set c (ok (key_id, public_key)) = (set_exit key_id public_key c, ok tt)

  -- Behind `Connect`.
  abbrev discover_on :
      Result ClientError (List ExitKeyEntry)
      → Client
      → Result ConnectError (Unit {0})
      → Client × Result StartupError (Unit {0})
  discover_on entries c (err e) = (c, err (StartupError.connect_failed e))
  discover_on entries c (ok u) = exit_set c (discover_exit entries)

  -- `QueryExitKeys` calls `getConnection` again: the connection that `Connect` has just stored is taken
  -- to live until then, so that it gives that one and changes nothing.
  unfoldable pub discover_and_connect :
      World f
      → Result ClientError (List ExitKeyEntry)
      → Client
      → Client × Result StartupError (Unit {0})
  discover_and_connect world entries c =
      let (s, connected) = connect f world c.state in
      discover_on entries (record c { state = s }) connected
