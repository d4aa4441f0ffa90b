-- ===== src/Client/Life/Stopped.antt =====
-- A proxy that is started serves, and one that is stopped has no connection.
use token_go.Base.{
  ℕ, Bytes, text, List, [], ◌∷◌, Option, none, some, true, Option-cases, ◌⊎◌, inl, inr, ◌≡◌, refl,
  arith,
}
use token_go.Net.{is_empty}
use token_go.Crypto.Interface.{Hpke}
use token_go.Dht.Node.{Node, NodeError, Env, start_node}
use token_go.LoadBalancer.Weighted.{Float}
use token_go.Relay.Registry.{Close}
use token_go.Client.Connection.{connect, connect_to_addr, close_client}
use token_go.Client.Life.{
  LocalProxy, Network, new_static_proxy, start_proxy, stop_proxy, start_dynamic,
}

abbrev closing : Option ℕ → List Close
closing none = []
closing (some c) = record { conn = c; code = 0; reason = text "client closed" } ∷ []

module _ {PrivKey PubKey : Type 0} (f : Float) (h : Hpke) (sum256 hex : Bytes → Bytes)
    (env : Env PrivKey PubKey) where
  abbrev Proxy : Type 0
  Proxy = LocalProxy PrivKey PubKey f h sum256 hex

  -- A static proxy serves whatever the network does, for the Exit and at the Relay that it was made
  -- for, and it is connected just if the Relay could be dialed.
  pub start_static :
      (net : Network f) (listen : Bytes) (a : ℕ) (addr : Bytes) (key_id : ℕ) (public_key : Bytes)
      → let p : Proxy =
          new_static_proxy PrivKey PubKey f h sum256 hex listen (a ∷ addr) key_id public_key in
        let started = start_proxy PrivKey PubKey f h sum256 hex env net p in
        (started.1 ≡ none)
        × (started.0.client.ohttp_client ≡ p.client.ohttp_client)
        × (started.0.client.exit_pub_key_hash ≡ p.client.exit_pub_key_hash)
        × (started.0.client.state.relay_addr ≡ a ∷ addr)
        × (started.0.client.state.conn ≡ net.dial (a ∷ addr) [])
  unfolding start_proxy new_static_proxy connect connect_to_addr
  start_static net listen a addr key_id public_key = elim (Option-cases (net.dial (a ∷ addr) [])) [
    | inl failed ↦
        (refl, refl, refl, rw (failed, connect_to_addr) refl, rw (failed, connect_to_addr) refl)
    | inr (c, dialed) ↦
        (refl, refl, refl, rw (dialed, connect_to_addr) refl, rw (dialed, connect_to_addr) refl)
  ]

  pub stop_proxy-conn :
      (p : Proxy)
      → ((stop_proxy PrivKey PubKey f h sum256 hex env p).0.client.state.conn ≡ none)
        × ((stop_proxy PrivKey PubKey f h sum256 hex env p).1 ≡ closing p.client.state.conn)
  unfolding stop_proxy close_client
  stop_proxy-conn p = ground arith

  dynamic-error :
      (net : Network f) (p : Proxy) (n : Node PrivKey PubKey) (e : Option NodeError)
      → (start_node env n).error ≡ e
      → (start_dynamic PrivKey PubKey f h sum256 hex env net p (some n)).1 ≡ e
  dynamic-error net p n none h = rw (h, start_dynamic) refl
  dynamic-error net p n (some e) h = rw (h, start_dynamic) refl

  -- A proxy without a Relay starts to serve unless its DHT node cannot be started.
  start_dynamic_lem :
      (net : Network f) (p : Proxy)
      → is_empty p.client.state.relay_addr ≡ true
      → ((start_proxy PrivKey PubKey f h sum256 hex env net p).1 ≡ none)
        ⊎ ((n : Node PrivKey PubKey) × (e : NodeError) × (p.dht_node ≡ some n)
            × ((start_node env n).error ≡ some e)
            × ((start_proxy PrivKey PubKey f h sum256 hex env net p).1 ≡ some e))
  unfolding start_proxy
  start_dynamic_lem net p unset = elim (Option-cases p.dht_node) [
    | inl missing ↦ inl (simp (unset, missing, start_proxy) refl)
    | inr (n, there) ↦ elim (Option-cases (start_node env n).error) [
      | inl fine ↦ inl (simp (unset, there, start_proxy) (dynamic-error net p n none fine))
      | inr (e, failed) ↦ inr (
        n,
        e,
        there,
        failed,
        simp (unset, there, start_proxy) (dynamic-error net p n (some e) failed),
      )
    ]
  ]
