-- ===== src/Dht/Service/Life.antt =====
-- A Relay or an Exit announces what it is, and takes it back.
use token_go.Base.{
  ◌∙◌, ℕ, zero, suc, ◌-◌, not, Bytes, Option, none, some, Bool, true, false, ◌⊎◌, inl, inr, ◌≡◌,
  refl, ap, arith, Option-cases, Bool-cases, ◌==◌, ◌*◌,
}
use token_go.Dht.Node.{Node, NodeError, Env, Host, start_node, stop_node}
use token_go.Dht.Node.Life.{Runs, start_node_lem}
use token_go.Dht.Provider.{
  Provider, ServiceInfo, Attempted, register_service, settle, unregister, attempt_loop, max_retries,
  second, wait_loops, loop_turn,
}
use token_go.Dht.Service.{
  Service, Table, Outcome, service_info, announce, start_service, stop_service,
}

loop_turn-cancelled :
    (p : Provider)
    → p.cancelled ≡ true
    → ((loop_turn p).cancelled ≡ true)
      × ((loop_turn p).loops ≡ p.loops - 1)
      × ((loop_turn p).registered ≡ p.registered)
unfolding loop_turn
loop_turn-cancelled p c = ground arith

wait_loops_lem :
    (n : ℕ) (p : Provider)
    → p.cancelled ≡ true
    → p.loops ≡ n
    → ((wait_loops n p).registered ≡ p.registered) × ((wait_loops n p).loops ≡ 0)
unfolding wait_loops
wait_loops_lem zero p c h = (refl, h)
wait_loops_lem (suc n) p c h =
    let (c', loops, registered) = loop_turn-cancelled p c in
    let (same, none_left) = wait_loops_lem n (loop_turn p) c' (omega (arith, h, loops)) in
    (same ∙ registered, none_left)

-- `Unregister` returns when no refresh loop is left.
unregister_lem : (p : Provider) → ((unregister p).registered ≡ false) × ((unregister p).loops ≡ 0)
unfolding unregister
unregister_lem p =
    wait_loops_lem p.loops (record p { registered = false; cancelled = true }) refl refl

settle-info : (p : Provider) (a : Attempted) → (settle p a).0.service_info ≡ p.service_info
settle-info p a = ground arith

-- However `Register` ends, the provider keeps the description of the service.
register_service-info :
    (service_cid : Bytes → Option Bytes) (table_size : ℕ) (provide stops : ℕ → Bool)
    (info : ServiceInfo) (p : Provider)
    → (register_service service_cid table_size provide stops info p).0.service_info ≡ some info
unfolding register_service
register_service-info service_cid table_size provide stops info p =
    elim (Option-cases (service_cid p.namespace)) [
      | inl missing ↦ rw (missing, register_service) refl
      | inr (c, named) ↦ elim (Bool-cases (table_size == 0)) [
        | inl seed ↦ rw (named, seed, register_service) refl
        | inr more ↦
            rw (named, more, register_service)
              (settle-info (record p { service_info = some info })
                (attempt_loop provide stops max_retries 0 (3 * second)))
      ]
    ]

module _ {PrivKey PubKey : Type 0} (env : Env PrivKey PubKey) (table : Table)
    (service_type public_key : Bytes) (key_id : ℕ) where
  abbrev start : Service PrivKey PubKey → Outcome PrivKey PubKey
  start s = start_service env table service_type public_key key_id (some s)

  -- The error of `Start`, with nothing announced.
  abbrev pub Fails : Service PrivKey PubKey → Type 0
  Fails s =
      (e : NodeError) × ((start_node env s.node).error ≡ some e)
      × (start s ≡ record {
        service = some (record s { node = (start_node env s.node).node });
        error = some e;
      })

  -- The service runs with its description, and what `Stop` makes of it.
  pub record Serves (s : Service PrivKey PubKey) : Type 0 where
    pub service : Service PrivKey PubKey
    pub started : start s ≡ record { service = some service; error = none }
    pub runs : service.node.started ≡ true
    pub described :
        service.provider.service_info
        ≡ some (service_info env table service_type public_key key_id service.node)
    pub stopped : Service PrivKey PubKey
    pub stop : stop_service env (some service) ≡ some stopped
    pub off : stopped.node.started ≡ not env.close_host
    pub unregistered : (stopped.provider.registered ≡ false) × (stopped.provider.loops ≡ 0)

  stop_node-started :
      (n : Node PrivKey PubKey) (h : Host)
      → n.started ≡ true
      → n.host ≡ some h
      → (stop_node env n).node.started ≡ not env.close_host
  unfolding stop_node
  stop_node-started n h runs hosted = elim (Bool-cases env.close_host) [
    | inl closes ↦ rw (runs, stop_node, hosted, closes) refl
    | inr fails ↦ rw (runs, stop_node, hosted, fails) refl
  ]

  serves : (s : Service PrivKey PubKey) → Runs env s.node (start_node env s.node) → Serves s
  unfolding start_service stop_service
  serves s r = record {
    service =
        announce env table service_type public_key key_id (start_node env s.node).node s.provider;
    started = rw (r.error, start_service) refl;
    runs = r.started;
    described =
        register_service-info table.service_cid table.table_size table.provide table.stops
          (service_info env table service_type public_key key_id (start_node env s.node).node)
          s.provider;
    stopped = record {
      node = (stop_node env (start_node env s.node).node).node;
      provider =
          unregister
            (announce env table service_type public_key key_id (start_node env s.node).node
              s.provider).provider;
    };
    stop = refl;
    off = stop_node-started (start_node env s.node).node r.host r.started r.has_host;
    unregistered =
        unregister_lem
          (announce env table service_type public_key key_id (start_node env s.node).node
            s.provider).provider;
  }

  fails :
      (s : Service PrivKey PubKey) (e : NodeError)
      → (start_node env s.node).error ≡ some e
      → Fails s
  unfolding start_service
  fails s e h = (e, h, rw (h, start_service) refl)

  -- `Start` of a Relay or an Exit whose DHT node does not run yet has one of two ends. Either the node
  -- could not be started, the error is returned, and the provider is as it was. Or the node runs, and
  -- the provider has the description of the service with the node's id and addresses, however
  -- `Register` ended; and a `Stop` waits for every refresh loop, leaves the provider unregistered, and
  -- the node off just if its host can be closed.
  pub start_service_lem : (s : Service PrivKey PubKey) → s.node.started ≡ false → Fails s ⊎ Serves s
  unfolding start_service
  start_service_lem s off = elim (start_node_lem env s.node off) [
    | inl runs ↦ inr (serves s runs)
    | inr (inl (e, failed)) ↦ inl (fails s e (ap (λ z. z.error) failed))
    | inr (inr leaks) ↦ inl (fails s NodeError.bootstrap_failed leaks.error)
  ]
