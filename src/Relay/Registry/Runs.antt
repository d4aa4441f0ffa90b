-- ===== src/Relay/Registry/Runs.antt =====
-- The registry with two Exits, and its theorems at it.
use token_go.Base.{
  inl, inr, All, ℕ, ◌≡◌, ◌≢◌, refl, subst, Bytes, List, [], ◌∷◌, map, none, some, arith, text,
  lookup, insert, bytes_discrete, ite, Among, true, false, ◌⊎◌, if◌then◌else◌,
}
use mathlib.Core.Logic.{◌↔◌}
use token_go.Relay.Registry.{
  Registry, ExitEntry, Close, new_registry, register, lookup_conn, remove_if_match, cleanup,
  list_exit_keys,
}
use token_go.Relay.Registry
use token_go.Relay.Registry.Lookups.{register_lem, remove_if_match_lem, superseded}
use token_go.Relay.Registry.Cleanup.{cleanup_lem, timed_out, expired, dead}
use token_go.Relay.Registry.Invariant.{register-IsValid, new_registry-IsValid}
use token_go.Relay.Registry.Listing.{list_exit_keys_lem, Offers}
use token_go.Relay.Registry.Refines.{Op, code_run, spec_run, entries_of, run_refines}
use token_go.Relay.Registry.Ticker.{start_cleanup, SilentSince, silent_is_removed}
use token_go.Relay.Registry.Beating.{Leaves, Beating, heartbeats_keep}

-- Two Exits: "a" on connection 3 with a key configuration, "b" on connection 4 without one.
abbrev entry : Bytes → ℕ → Bytes → ℕ → ExitEntry
entry hash conn key_config now = record {
  pub_key_hash = hash;
  conn = conn;
  key_config = key_config;
  registered_at = now;
  last_heartbeat = now;
}

abbrev pub two_exits : Registry
two_exits = record {
  entries = (text "a", entry (text "a") 3 (1 ∷ []) 10) ∷ (text "b", entry (text "b") 4 [] 50) ∷ [];
}

registered_both :
    (register 50 (text "b") 4 [] (register 10 (text "a") 3 (1 ∷ []) new_registry).0).0 ≡ two_exits
unfolding register insert bytes_discrete new_registry
registered_both = refl

pub two_exits-IsValid : Registry.IsValid two_exits
two_exits-IsValid = subst Registry.IsValid registered_both (
    register-IsValid 50 (text "b") 4 [] (register 10 (text "a") 3 (1 ∷ []) new_registry).0
      (register-IsValid 10 (text "a") 3 (1 ∷ []) new_registry new_registry-IsValid))

pub b-ne-a : text "b" ≢ text "a"
b-ne-a e = ground arith

register_lem_example :
    (lookup_conn (text "a") (register 60 (text "a") 5 [] two_exits).0
      ≡ ite (bytes_discrete (text "a") (text "a")) (some 5) (lookup_conn (text "a") two_exits))
    × ((register 60 (text "a") 5 [] two_exits).1 ≡ superseded (lookup_conn (text "a") two_exits))
register_lem_example = register_lem 60 (text "a") (text "a") 5 [] two_exits

remove_if_match_lem_example :
    ((lookup_conn (text "a") two_exits ≡ some 3)
      × ((remove_if_match (text "a") 3 two_exits).1 ≡ true)
      × (lookup_conn (text "b") (remove_if_match (text "a") 3 two_exits).0
          ≡ ite (bytes_discrete (text "a") (text "b")) none (lookup_conn (text "b") two_exits)))
    ⊎ ((lookup_conn (text "a") two_exits ≢ some 3)
        × (remove_if_match (text "a") 3 two_exits ≡ (two_exits, false)))
remove_if_match_lem_example = remove_if_match_lem (text "a") (text "b") 3 two_exits

cleanup_lem_example :
    (lookup (text "a") (cleanup 120 90 two_exits).0.entries ≡ (
      if dead 120 90 (lookup (text "a") two_exits.entries)
      then none
      else lookup (text "a") two_exits.entries))
    × ((cleanup 120 90 two_exits).1 ≡ map timed_out (expired 120 90 two_exits.entries))
cleanup_lem_example = cleanup_lem 120 90 two_exits (text "a") two_exits-IsValid

list_exit_keys_lem_example :
    Among (record { pub_key_hash = text "a"; key_config = 1 ∷ [] }) (list_exit_keys two_exits)
    ↔ Offers two_exits.entries (record { pub_key_hash = text "a"; key_config = 1 ∷ [] })
list_exit_keys_lem_example =
    list_exit_keys_lem two_exits (record { pub_key_hash = text "a"; key_config = 1 ∷ [] })
      two_exits-IsValid

abbrev some_calls : List Op
some_calls =
    Op.call_register 60 (text "a") 5 []
    ∷ Op.call_heartbeat 70 (text "b")
    ∷ Op.call_remove_if_match (text "a") 3
    ∷ Op.call_cleanup 120 55
    ∷ Op.call_lookup (text "a")
    ∷ []

run_refines_example :
    Registry.IsValid (code_run some_calls two_exits).0
    × (entries_of (code_run some_calls two_exits).0
        ≡ (spec_run some_calls (entries_of two_exits)).0)
    × ((code_run some_calls two_exits).1 ≡ (spec_run some_calls (entries_of two_exits)).1)
run_refines_example = run_refines some_calls two_exits two_exits-IsValid

-- "b" sends a heartbeat before each tick, and "a" falls silent.
abbrev three_rounds : List (List Op)
three_rounds =
    (Op.call_heartbeat 60 (text "b") ∷ Op.call_lookup (text "a") ∷ [])
    ∷ (Op.call_heartbeat 120 (text "b") ∷ [])
    ∷ (Op.call_remove_if_match (text "a") 9 ∷ Op.call_heartbeat 150 (text "b") ∷ [])
    ∷ []

silent : SilentSince 50 (lookup (text "a") two_exits.entries)
unfolding lookup
silent = omega arith

served : lookup_conn (text "b") two_exits ≡ some 4
unfolding lookup_conn lookup
served = refl

silent_is_removed_example :
    lookup_conn (text "a") (start_cleanup 90 50 three_rounds two_exits) ≡ none
silent_is_removed_example =
    silent_is_removed (text "a") 90 50 three_rounds two_exits two_exits-IsValid silent
      ((b-ne-a, (tt, tt)), ((b-ne-a, tt), ((tt, (b-ne-a, tt)), tt))) (omega arith)

a-ne-b : text "a" ≢ text "b"
a-ne-b e = ground arith

last_round :
    All
      (Leaves (text "b") 140)
      (Op.call_remove_if_match (text "a") 9 ∷ Op.call_heartbeat 150 (text "b") ∷ [])
last_round = (a-ne-b, (omega arith, tt))

beats : Beating (text "b") 90 50 three_rounds
beats = (
  (omega arith, (tt, tt)),
  inl (60, refl),
  ((omega arith, tt), inl (120, refl), (last_round, inr (inl (150, refl)), tt)),
)

heartbeats_keep_example :
    lookup_conn (text "b") (start_cleanup 90 50 three_rounds two_exits) ≡ some 4
heartbeats_keep_example =
    heartbeats_keep (text "b") 4 90 50 three_rounds two_exits two_exits-IsValid served beats
