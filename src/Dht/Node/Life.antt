-- ===== src/Dht/Node/Life.antt =====
-- `Start` and `Stop` of internal/dht/node.go.
use mathlib.Core.Logic.{◌↔◌}
use token_go.Base.{
  Bytes, List, [], ◌∷◌, none, some, true, false, ok, ◌≡◌, ◌≢◌, refl, subst, sym, arith, Among, ◌⊎◌,
  inl, inr, Bool-cases, Result-cases,
}
use token_go.Net.{AddrInfo}
use token_go.Dht.Bootstrap.{resolve_bootstrap_peers}
use token_go.Dht.Node.{
  Node, Env, Started, Host, NodeError, start_node, stop_node, run_host, new_host_of, other_peers,
  connect_bootstrap_peers,
}

other_peers_sound :
    (self : Bytes) (p : AddrInfo) (ps : List AddrInfo)
    → Among p (other_peers self ps)
    → Among p ps × (p.id ≢ self)
unfolding other_peers
other_peers_sound self p [] h = absurd h
other_peers_sound self p (q ∷ ps) h = ground (arith, other_peers_sound self p ps)

other_peers_complete :
    (self : Bytes) (p : AddrInfo) (ps : List AddrInfo)
    → Among p ps × (p.id ≢ self)
    → Among p (other_peers self ps)
unfolding other_peers
other_peers_complete self p [] h = absurd h.0
other_peers_complete self p (q ∷ ps) h = ground (arith, other_peers_complete self p ps)

module _ {PrivKey PubKey : Type 0} (env : Env PrivKey PubKey) where
  -- The peers of `ResolveBootstrapPeers`.
  abbrev pub resolved : Node PrivKey PubKey → List AddrInfo
  resolved n =
      resolve_bootstrap_peers env.parse_peer env.unmarshal env.get env.arrive env.default_peers
        env.urls n.config.bootstrap_peers

  -- The node runs, and has dialed each resolved peer but itself.
  pub record Runs (n : Node PrivKey PubKey) (r : Started PrivKey PubKey) : Type 0 where
    pub error : r.error ≡ none
    pub started : r.node.started ≡ true
    pub host : Host
    pub has_host : r.node.host ≡ some host
    pub dialed :
        (p : AddrInfo) → Among p r.dialed ↔ (Among p (resolved n) × (p.id ≢ n.identity.peer_id))

  -- The node does not run. Its host is left open, and `Stop` does not close it.
  pub record Leaks (r : Started PrivKey PubKey) : Type 0 where
    pub error : r.error ≡ some NodeError.bootstrap_failed
    pub started : r.node.started ≡ false
    pub host : Host
    pub has_host : r.node.host ≡ some host
    pub stop : stop_node env r.node ≡ record { node = r.node; closed = false; error = none }

  run_host_lem :
      (n : Node PrivKey PubKey) (h : Host)
      → n.started ≡ false
      → Runs n (run_host env n h) ⊎ Leaks (run_host env n h)
  unfolding run_host connect_bootstrap_peers stop_node
  run_host_lem n h s = elim (Bool-cases env.bootstrap) [
    | inl b ↦ inl (
        rw (b, run_host)
          (record {
            error = refl;
            started = refl;
            host = _;
            has_host = refl;
            dialed = λ p. (
              other_peers_sound n.identity.peer_id p (resolved n),
              other_peers_complete n.identity.peer_id p (resolved n),
            );
          }))
    | inr b ↦ inr (
        rw (b, run_host)
          (record { error = refl; started = s; host = _; has_host = refl; stop = rw s refl }))
  ]

  -- `Start` of a node that does not run ends in one of three ways: the node runs, and has dialed
  -- exactly the resolved bootstrap peers that are not itself; or there is an error and the node is as
  -- it was; or `Bootstrap` failed, and the host stays open, since `Stop` then returns at once.
  pub start_node_lem :
      (n : Node PrivKey PubKey)
      → n.started ≡ false
      → Runs n (start_node env n)
        ⊎ ((e : NodeError) × (start_node env n
              ≡ record { node = n; dialed = []; connected = 0; error = some e }))
        ⊎ Leaks (start_node env n)
  unfolding start_node
  start_node_lem n s = elim (Result-cases (new_host_of env n)) [
    | inr (e, failed) ↦ inr (inl (e, simp (s, failed, start_node) refl))
    | inl (h, made) ↦ elim (run_host_lem n h s) [
      | inl runs ↦ inl (subst (Runs n) (sym (runs_host h made)) runs)
      | inr leaks ↦ inr (inr (subst Leaks (sym (runs_host h made)) leaks))
    ]
  ]
    where
      runs_host : (h : Host) → new_host_of env n ≡ ok h → start_node env n ≡ run_host env n h
      runs_host h made = simp (s, made, start_node) refl
