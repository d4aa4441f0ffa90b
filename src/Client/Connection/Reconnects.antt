-- ===== src/Client/Connection/Reconnects.antt =====
-- What `getConnection` of internal/client/client.go gives, and leaves stored.
use token_go.Base.{
  ℕ, Bytes, List, [], ◌∷◌, Option, none, some, Bool, true, Result, ok, err, ◌≡◌, refl, ◌⊎◌, inl,
  inr, Bool-cases, Option-cases, Result-cases,
}
use token_go.Net.{AddrInfo, extract_quic_address, is_empty}
use token_go.LoadBalancer.Weighted.{Float, weighted_select}
use token_go.Client.Connection.{
  ClientState, World, ConnectError, Connected, report, connect_to_addr, connect_to_relay,
  connect_with_discovery, connect, reconnect, use_or_replace, get_connection, close_conn,
  select_failed, discovery_failed, no_relays,
}

module _ (f : Float) (world : World f) where
  abbrev pub IsConnected : ClientState f → Type 0
  IsConnected s =
      (c : ℕ) × (s.conn ≡ some c) × (world.dial s.relay_addr s.current_relay_id ≡ some c)

  -- A connection that was dialed is stored; on an error none is.
  abbrev pub IsSettled : ClientState f → Result ConnectError (Unit {0}) → Type 0
  IsSettled s r =
      ((r ≡ ok tt) × IsConnected s) ⊎ ((e : ConnectError) × (r ≡ err e) × (s.conn ≡ none))

  connect_to_addr-IsSettled :
      (addr peer_id : Bytes) (s : ClientState f)
      → s.conn ≡ none
      → IsSettled
          (connect_to_addr f world addr peer_id s).0
          (connect_to_addr f world addr peer_id s).1
  unfolding connect_to_addr
  connect_to_addr-IsSettled [] peer_id s h = inr (ConnectError.empty_address, refl, h)
  connect_to_addr-IsSettled (a ∷ addr) peer_id s h =
      elim (Option-cases (world.dial (a ∷ addr) peer_id)) [
        | inl e ↦ rw (e, connect_to_addr) (inr (ConnectError.dial_failed, refl, h))
        | inr (c, e) ↦ rw (e, connect_to_addr) (inl (refl, (c, refl, e)))
      ]

  report-IsSettled :
      (id : Bytes) (s : ClientState f) (r : Result ConnectError (Unit {0}))
      → IsSettled s r
      → IsSettled (report f id s r).0 (report f id s r).1
  report-IsSettled id s (ok u) h = h
  report-IsSettled id s (err e) h = h

  connect_to_relay-IsSettled :
      (selected : AddrInfo) (s : ClientState f)
      → s.conn ≡ none
      → IsSettled (connect_to_relay f world selected s).0 (connect_to_relay f world selected s).1
  unfolding connect_to_relay
  connect_to_relay-IsSettled selected s h =
      let addr : Bytes = extract_quic_address selected.addrs in
      elim (Bool-cases (is_empty addr)) [
        | inl no_addr ↦ rw (no_addr, connect_to_relay) (inr (ConnectError.no_address, refl, h))
        | inr some_addr ↦
            rw (some_addr, connect_to_relay)
              (report-IsSettled selected.id (connect_to_addr f world addr selected.id s).0
                (connect_to_addr f world addr selected.id s).1
                (connect_to_addr-IsSettled addr selected.id s h))
      ]

  connect_with_discovery-IsSettled :
      (found : Option (List AddrInfo)) (s : ClientState f)
      → s.conn ≡ none
      → IsSettled
          (connect_with_discovery f world found s).0
          (connect_with_discovery f world found s).1
  unfolding connect_with_discovery
  connect_with_discovery-IsSettled none s h = inr (discovery_failed, refl, h)
  connect_with_discovery-IsSettled (some []) s h = inr (no_relays, refl, h)
  connect_with_discovery-IsSettled (some (r ∷ rs)) s h =
      elim (Result-cases (weighted_select f world.draw world.unit s.selector (r ∷ rs))) [
        | inr (e, failed) ↦ rw (failed, connect_with_discovery) (inr (select_failed, refl, h))
        | inl (selected, chosen) ↦
            rw (chosen, connect_with_discovery) (connect_to_relay-IsSettled selected s h)
      ]

  connect-IsSettled : (s : ClientState f) → IsSettled (connect f world s).0 (connect f world s).1
  unfolding connect
  connect-IsSettled s = elim (Option-cases world.discovery) [
    | inl static ↦
        rw (static, connect)
          (connect_to_addr-IsSettled s.relay_addr [] (record s { conn = none }) refl)
    | inr (found, dynamic) ↦
        rw (dynamic, connect)
          (connect_with_discovery-IsSettled found (record s { conn = none }) refl)
  ]

  -- What a call of `getConnection` in the state `s` may come to: the stored, living connection and
  -- nothing else changed; or the old connection closed, and then a new one that was dialed to the
  -- stored address and is stored itself; or an error, and no connection stored.
  abbrev pub IsGot : (ℕ → Bool) → ClientState f → Connected f → Type 0
  IsGot alive s r =
      ((c : ℕ) × (s.conn ≡ some c)
        × (alive c ≡ true)
        × (r ≡ record { state = s; closes = []; conn = ok (some c) }))
      ⊎ ((r.closes ≡ close_conn f s.conn)
          × (((c : ℕ) × (r.conn ≡ ok (some c))
                × (r.state.conn ≡ some c)
                × (world.dial r.state.relay_addr r.state.current_relay_id ≡ some c))
              ⊎ ((e : ConnectError) × (r.conn ≡ err e) × (r.state.conn ≡ none))))

  reconnect_lem : (alive : ℕ → Bool) (s : ClientState f) → IsGot alive s (reconnect f world s)
  unfolding reconnect
  reconnect_lem alive s = inr (refl, outcome (connect-IsSettled s))
    where
      outcome :
          IsSettled (connect f world s).0 (connect f world s).1
          → ((c : ℕ) × ((reconnect f world s).conn ≡ ok (some c))
              × ((reconnect f world s).state.conn ≡ some c)
              × (world.dial
                    (reconnect f world s).state.relay_addr
                    (reconnect f world s).state.current_relay_id
                  ≡ some c))
            ⊎ ((e : ConnectError) × ((reconnect f world s).conn ≡ err e)
                × ((reconnect f world s).state.conn ≡ none))
      outcome (inl (done, (c, stored, dialed))) = inl (c, rw (done, stored) refl, stored, dialed)
      outcome (inr (e, failed, none_stored)) = inr (e, rw failed refl, none_stored)

  use_or_replace_lem :
      (alive : ℕ → Bool) (s : ClientState f) (conn : Option ℕ)
      → s.conn ≡ conn
      → IsGot alive s (use_or_replace f alive world s conn)
  unfolding use_or_replace
  use_or_replace_lem alive s none stored = reconnect_lem alive s
  use_or_replace_lem alive s (some c) stored = elim (Bool-cases (alive c)) [
    | inl living ↦ inl (c, stored, living, rw living refl)
    | inr lost ↦ rw (lost, use_or_replace) (reconnect_lem alive s)
  ]

  -- A call of `getConnection` has one of three ends. The stored connection is alive, and is given
  -- with nothing else changed. Or the stored one, if any, is closed, and a connection is given that
  -- was just dialed, to the address and with the peer id that are stored, and that is the stored one
  -- now. Or the stored one, if any, is closed, an error is given, and no connection is stored.
  pub get_connection_lem :
      (alive : ℕ → Bool) (s : ClientState f) → IsGot alive s (get_connection f alive world s)
  unfolding get_connection
  get_connection_lem alive s = use_or_replace_lem alive s s.conn refl
