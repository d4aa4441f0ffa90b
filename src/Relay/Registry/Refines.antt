-- ===== src/Relay/Registry/Refines.antt =====
-- What internal/relay/registry.go promises, without its map: a function from hashes to entries, and
-- each method as a change of that function.
use mathlib.Core.Path.{fun_ext}
use token_go.Base.{
  ℕ, Bytes, List, [], ◌∷◌, Option, none, some, Bool, true, false, lookup, bytes_discrete,
  ℕ_discrete, ite, if◌then◌else◌, lookup-insert, lookup-delete, ◌≡◌, refl, arith, ap, ◌∙◌,
}
use token_go.Relay.Registry.{
  Registry, ExitEntry, Close, IsValid, register, lookup_conn, remove, remove_if_match,
  update_heartbeat, cleanup, close_old,
}
use token_go.Relay.Registry.Invariant.{
  register-IsValid, remove-IsValid, remove_if_match-IsValid, update_heartbeat-IsValid,
  cleanup-IsValid,
}
use token_go.Relay.Registry.Lookups.{superseded, update_heartbeat_lem}
use token_go.Relay.Registry.Cleanup.{dead, cleanup_lem}

-- A call of a method, with its arguments and the time at which it runs.
pub data Op : Type 0 where
  call_register : (now : ℕ) (hash : Bytes) (conn : ℕ) (key_config : Bytes) → Op
  call_lookup call_remove : (hash : Bytes) → Op
  call_remove_if_match : (hash : Bytes) (conn : ℕ) → Op
  call_heartbeat : (now : ℕ) (hash : Bytes) → Op
  call_cleanup : (now timeout : ℕ) → Op

-- What a call lets its caller see. The order in which `cleanup` closes connections is the map's own
-- and is left out.
pub data Seen : Type 0 where
  found : (conn : Option ℕ) → Seen
  removed : (b : Bool) → Seen
  closed : (conns : List Close) → Seen
  done : Seen

abbrev pub Spec : Type 0
Spec = Bytes → Option ExitEntry

abbrev entry_conn : Option ExitEntry → Option ℕ
entry_conn none = none
entry_conn (some e) = some e.conn

abbrev pub matches : ℕ → Option ExitEntry → Bool
matches conn none = false
matches conn (some e) = ite (ℕ_discrete e.conn conn) true false

abbrev touch : ℕ → Option ExitEntry → Option ExitEntry
touch now none = none
touch now (some e) = some (record e { last_heartbeat = now })

-- The specification of the methods.
abbrev pub spec_step : Op → Spec → Spec × Seen
spec_step (Op.call_register now hash conn key_config) f = (
  λ j.
      ite (bytes_discrete hash j)
        (some (record {
          pub_key_hash = hash;
          conn = conn;
          key_config = key_config;
          registered_at = now;
          last_heartbeat = now;
        }))
        (f j),
  closed (superseded (entry_conn (f hash))),
)
spec_step (Op.call_lookup hash) f = (f, found (entry_conn (f hash)))
spec_step (Op.call_remove hash) f = (λ j. ite (bytes_discrete hash j) none (f j), done)
spec_step (Op.call_remove_if_match hash conn) f = (
  λ j. ite (bytes_discrete hash j) (if matches conn (f j) then none else f j) (f j),
  removed (matches conn (f hash)),
)
spec_step (Op.call_heartbeat now hash) f =
    (λ j. ite (bytes_discrete hash j) (touch now (f j)) (f j), done)
spec_step (Op.call_cleanup now timeout) f =
    (λ j. if dead now timeout (f j) then none else f j, done)

-- The same calls of the code.
abbrev pub code_step : Op → Registry → Registry × Seen
code_step (Op.call_register now hash conn key_config) r =
    let (r', cs) = register now hash conn key_config r in (r', closed cs)
code_step (Op.call_lookup hash) r = (r, found (lookup_conn hash r))
code_step (Op.call_remove hash) r = (remove hash r, done)
code_step (Op.call_remove_if_match hash conn) r =
    let (r', b) = remove_if_match hash conn r in (r', removed b)
code_step (Op.call_heartbeat now hash) r = (update_heartbeat now hash r, done)
code_step (Op.call_cleanup now timeout) r = ((cleanup now timeout r).0, done)

abbrev pub code_run : List Op → Registry → Registry × List Seen
code_run [] r = (r, [])
code_run (op ∷ ops) r =
    let (r', x) = code_step op r in let (r'', xs) = code_run ops r' in (r'', x ∷ xs)

abbrev pub spec_run : List Op → Spec → Spec × List Seen
spec_run [] f = (f, [])
spec_run (op ∷ ops) f =
    let (f', x) = spec_step op f in let (f'', xs) = spec_run ops f' in (f'', x ∷ xs)

-- The abstraction function.
abbrev pub entries_of : Registry → Spec
entries_of r j = lookup j r.entries

pub code_step-IsValid : (op : Op) (r : Registry) → IsValid r → IsValid (code_step op r).0
code_step-IsValid (Op.call_register now hash conn key_config) r v =
    register-IsValid now hash conn key_config r v
code_step-IsValid (Op.call_lookup hash) r v = v
code_step-IsValid (Op.call_remove hash) r v = remove-IsValid hash r v
code_step-IsValid (Op.call_remove_if_match hash conn) r v = remove_if_match-IsValid hash conn r v
code_step-IsValid (Op.call_heartbeat now hash) r v = update_heartbeat-IsValid now hash r v
code_step-IsValid (Op.call_cleanup now timeout) r v = cleanup-IsValid now timeout r v

pub entries_lem :
    (op : Op) (r : Registry) (j : Bytes)
    → IsValid r
    → lookup j (code_step op r).0.entries ≡ (spec_step op (entries_of r)).0 j
unfolding register remove remove_if_match
entries_lem (Op.call_register now hash conn key_config) r j v = lookup-insert hash j _ r.entries
entries_lem (Op.call_lookup hash) r j v = refl
entries_lem (Op.call_remove hash) r j v = ground (arith, lookup-delete hash j r.entries)
entries_lem (Op.call_remove_if_match hash conn) r j v =
    ground (arith, lookup-delete hash j r.entries)
entries_lem (Op.call_heartbeat now hash) r j v =
    ground (arith, (update_heartbeat_lem now hash j r).1)
entries_lem (Op.call_cleanup now timeout) r j v = (cleanup_lem now timeout r j v).0

seen_lem : (op : Op) (r : Registry) → (code_step op r).1 ≡ (spec_step op (entries_of r)).1
unfolding register remove_if_match lookup_conn close_old
seen_lem (Op.call_register now hash conn key_config) r = ground arith
seen_lem (Op.call_lookup hash) r = ground arith
seen_lem (Op.call_remove hash) r = refl
seen_lem (Op.call_remove_if_match hash conn) r = ground arith
seen_lem (Op.call_heartbeat now hash) r = refl
seen_lem (Op.call_cleanup now timeout) r = refl

-- On a valid registry, any sequence of calls of the methods has the results that the specification
-- gives, ends in a valid registry, and in the entries that the specification ends in.
pub run_refines :
    (ops : List Op) (r : Registry)
    → IsValid r
    → IsValid (code_run ops r).0
      × (entries_of (code_run ops r).0 ≡ (spec_run ops (entries_of r)).0)
      × ((code_run ops r).1 ≡ (spec_run ops (entries_of r)).1)
run_refines [] r v = (v, refl, refl)
run_refines (op ∷ ops) r v =
    let (valid, entries, seen) = run_refines ops (code_step op r).0 (code_step-IsValid op r v) in
    let same : entries_of (code_step op r).0 ≡ (spec_step op (entries_of r)).0 =
      fun_ext (λ j. entries_lem op r j v) in
    (
      valid,
      entries ∙ ap (λ f. (spec_run ops f).0) same,
      λ i. seen_lem op r i ∷ (seen ∙ ap (λ f. (spec_run ops f).1) same) i,
    )
