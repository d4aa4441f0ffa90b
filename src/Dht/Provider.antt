-- ===== src/Dht/Provider.antt =====
-- internal/dht/provider.go: the announcement of a service in the DHT.
-- The DHT is a parameter: whether the i-th call of `Provide` succeeds. A loop that is started as a
-- goroutine is counted; what it does at a tick of its timers is `tick` and `retry_tick`.
pub mod Attempts
pub mod Refresh
use token_go.Base.{
  ℕ, zero, suc, ◌+◌, ◌-◌, ◌*◌, ◌^◌, min, Bytes, text, List, [], ◌∷◌, ◌++◌, Option, none, some, Bool,
  true, false, bytes_discrete, ite, not, ◌&&◌, ltb, ◌==◌, if◌then◌else◌,
}
use token_go.Dht.Discovery.{relay_service_namespace, exit_service_namespace}

pub record ServiceInfo : Type 0 where
  pub peer_id : Bytes
  pub service_type : Bytes
  pub addrs : List Bytes
  pub public_key : Bytes
  pub key_id : ℕ

pub record Provider : Type 0 where
  pub service_type : Bytes
  pub namespace : Bytes
  pub service_info : Option ServiceInfo
  pub registered : Bool
  -- `p.ctx` is cancelled.
  pub cancelled : Bool
  -- How many times `refreshLoop` was started and has not returned: the counter of `p.wg`.
  pub loops : ℕ

unfoldable pub namespace_of : Bytes → Bytes
unfolding bytes_discrete
namespace_of service_type =
    ite (bytes_discrete service_type (text "relay")) relay_service_namespace (
      ite (bytes_discrete service_type (text "exit")) exit_service_namespace
        (text "/tokengo/" ++ service_type ++ text "/v1"))

unfoldable pub new_provider : Bytes → Provider
unfolding namespace_of
new_provider service_type = record {
  service_type = service_type;
  namespace = namespace_of service_type;
  service_info = none;
  registered = false;
  cancelled = false;
  loops = 0;
}

pub data RegisterError : Type 0 where
  cid_failed stopped provide_failed : RegisterError

-- The waits, in nanoseconds, the calls of `Provide`, and the error at the end.
pub record Attempted : Type 0 where
  pub waits : List ℕ
  pub provides : ℕ
  pub error : Option RegisterError

abbrev pub second : ℕ
second = 10 ^ 9

abbrev pub max_backoff : ℕ
max_backoff = 30 * second

abbrev pub max_retries : ℕ
max_retries = 5

-- The wait in front of the i-th attempt; there is none in front of the first.
abbrev pub wait_before : ℕ → ℕ → List ℕ
wait_before i backoff = if ltb 0 i then backoff ∷ [] else []

abbrev pub backoff_after : ℕ → ℕ → ℕ
backoff_after i backoff = if ltb 0 i then min (backoff * 2) max_backoff else backoff

-- The loop of `Register`, with the number of rounds that are left. `stops i` tells that the context
-- is done in the wait in front of the i-th attempt.
unfoldable pub attempt_loop : (ℕ → Bool) → (ℕ → Bool) → ℕ → ℕ → ℕ → Attempted
attempt_loop provide stops zero i backoff = record {
  waits = [];
  provides = 0;
  error = some RegisterError.provide_failed;
}
attempt_loop provide stops (suc n) i backoff =
    let rest : Attempted = attempt_loop provide stops n (suc i) (backoff_after i backoff) in
    let wait : List ℕ = wait_before i backoff in
    if ltb 0 i && stops i
    then record { waits = wait; provides = 0; error = some RegisterError.stopped }
    else (if provide i then record { waits = wait; provides = 1; error = none } else record {
      waits = wait ++ rest.waits;
      provides = suc rest.provides;
      error = rest.error;
    })

abbrev pub start_refresh : Provider → Provider
start_refresh p = record p { registered = true; loops = suc p.loops }

-- What `Register` makes of its attempts.
abbrev pub settle : Provider → Attempted → Provider × Attempted
settle p a = elim a.error [ none ↦ (start_refresh p, a) | some e ↦ (p, a) ]

abbrev pub no_attempt : Option RegisterError → Attempted
no_attempt error = record { waits = []; provides = 0; error = error }

-- An empty routing table is that of a seed node.
unfoldable pub register_service :
    (Bytes → Option Bytes)
    → ℕ
    → (ℕ → Bool)
    → (ℕ → Bool)
    → ServiceInfo
    → Provider
    → Provider × Attempted
unfolding attempt_loop
register_service service_cid table_size provide stops info p =
    let p' : Provider = record p { service_info = some info } in
    elim (service_cid p.namespace) [
      | none ↦ (p', no_attempt (some RegisterError.cid_failed))
      | some c ↦
          if table_size == 0
          then (start_refresh p', no_attempt none)
          else settle p' (attempt_loop provide stops max_retries 0 (3 * second))
    ]

-- The loop's own variable `registered`, and whether this tick calls `Provide`.
abbrev Ticked : Type 0
Ticked = Bool × Bool

-- A tick of `ticker`: every three minutes. The CID is the one of the namespace, and `provided` tells
-- what `Provide` answers if it is called.
unfoldable pub refresh_tick : Option Bytes → Bool → Provider → Bool → Ticked
refresh_tick cid provided p announced =
    if p.registered
    then (elim cid [
      | none ↦ (announced, false)
      | some c ↦ (if provided then true else announced, true)
    ])
    else (announced, false)

-- A tick of `retryTicker`: every ten seconds.
unfoldable pub retry_tick : Option Bytes → ℕ → Bool → Bool → Ticked
retry_tick cid table_size provided announced =
    if not announced && ltb 0 table_size
    then (elim cid [ none ↦ (announced, false) | some c ↦ (provided, true) ])
    else (announced, false)

-- A `refreshLoop` gets its turn in its `select`: it returns, with `p.wg.Done()`, just if the context
-- is cancelled.
unfoldable pub loop_turn : Provider → Provider
loop_turn p = if p.cancelled then record p { loops = p.loops - 1 } else p

-- `p.wg.Wait()`, during which each of the loops gets a turn.
unfoldable pub wait_loops : ℕ → Provider → Provider
unfolding loop_turn
wait_loops zero p = p
wait_loops (suc n) p = wait_loops n (loop_turn p)

unfoldable pub unregister : Provider → Provider
unfolding wait_loops
unregister p = wait_loops p.loops (record p { registered = false; cancelled = true })
