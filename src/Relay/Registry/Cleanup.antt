-- ===== src/Relay/Registry/Cleanup.antt =====
-- `cleanup` of internal/relay/registry.go.
use token_go.Base.{
  ℕ, ◌-◌, ltb, Bytes, List, [], ◌∷◌, map, Option, none, some, Bool, false, Map, lookup, delete,
  lookup-delete, ◌≡◌, refl, arith, if◌then◌else◌, Distinct, text,
}
use token_go.Relay.Registry.{Registry, ExitEntry, Close, IsValid, cleanup_loop, cleanup}

-- The last heartbeat is more than the timeout ago.
abbrev pub is_late : ℕ → ℕ → ExitEntry → Bool
is_late now timeout e = ltb timeout (now - e.last_heartbeat)

-- Whether the map has an expired entry under a hash.
abbrev pub dead : ℕ → ℕ → Option ExitEntry → Bool
dead now timeout none = false
dead now timeout (some e) = is_late now timeout e

abbrev pub timed_out : ExitEntry → Close
timed_out e = record { conn = e.conn; code = 0; reason = text "heartbeat timeout" }

-- The entries that are out of date, in the order of the map.
abbrev pub expired : ℕ → ℕ → Map ExitEntry → List ExitEntry
expired now timeout [] = []
expired now timeout ((hash, e) ∷ rest) =
    if is_late now timeout e then e ∷ expired now timeout rest else expired now timeout rest

cleanup_loop-lookup :
    (now timeout : ℕ) (xs : Map ExitEntry) (r : Registry) (j : Bytes)
    → Distinct xs
    → lookup j (cleanup_loop now timeout xs r).0.entries
      ≡ (if dead now timeout (lookup j xs) then none else lookup j r.entries)
unfolding cleanup_loop lookup
cleanup_loop-lookup now timeout [] r j d = refl
cleanup_loop-lookup now timeout ((hash, e) ∷ rest) r j d = ground (
  arith,
  cleanup_loop-lookup now timeout rest r j d.1,
  cleanup_loop-lookup now timeout rest (record r { entries = delete hash r.entries }) j d.1,
  lookup-delete hash j r.entries,
)

cleanup_loop-closes :
    (now timeout : ℕ) (xs : Map ExitEntry) (r : Registry)
    → (cleanup_loop now timeout xs r).1 ≡ map timed_out (expired now timeout xs)
unfolding cleanup_loop
cleanup_loop-closes now timeout [] r = refl
cleanup_loop-closes now timeout ((hash, e) ∷ rest) r = ground (
  arith,
  cleanup_loop-closes now timeout rest r,
  cleanup_loop-closes now timeout rest (record r { entries = delete hash r.entries }),
)

-- On a valid registry `cleanup` removes exactly the entries whose last heartbeat is more than the
-- timeout ago, keeps every other entry as it was, and closes exactly the removed entries'
-- connections.
pub cleanup_lem :
    (now timeout : ℕ) (r : Registry) (j : Bytes)
    → IsValid r
    → (lookup j (cleanup now timeout r).0.entries
        ≡ (if dead now timeout (lookup j r.entries) then none else lookup j r.entries))
      × ((cleanup now timeout r).1 ≡ map timed_out (expired now timeout r.entries))
unfolding cleanup
cleanup_lem now timeout r j v = (
  cleanup_loop-lookup now timeout r.entries r j v.distinct,
  cleanup_loop-closes now timeout r.entries r,
)
