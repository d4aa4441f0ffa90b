-- ===== src/Client/Startup/Relayed.antt =====
-- A Client without discovery that is given another Relay dials that one when it next connects.
use token_go.Base.{ℕ, Bytes, [], ◌∷◌, none, some, ok, ◌≡◌, refl}
use token_go.Crypto.Interface.{Hpke}
use token_go.LoadBalancer.Weighted.{Float}
use token_go.Client.Connection.{World, connect, connect_to_addr}
use token_go.Client.Startup.{Client, set_relay}

module _ (f : Float) (h : Hpke) (sum256 hex : Bytes → Bytes) where
  -- Whatever was connected before, and with the selector as it was.
  set_relay-connect :
      (world : World f) (c : Client f h sum256 hex) (a : ℕ) (addr : Bytes) (conn : ℕ)
      → world.discovery ≡ none
      → world.dial (a ∷ addr) [] ≡ some conn
      → connect f world (set_relay f h sum256 hex (a ∷ addr) c).state ≡ (
        record {
          relay_addr = a ∷ addr;
          current_relay_id = [];
          conn = some conn;
          selector = c.state.selector;
        },
        ok tt,
      )
  unfolding set_relay connect connect_to_addr
  set_relay-connect world c a addr conn static dialed =
      rw (static, connect, dialed, connect_to_addr) refl
