-- ===== src/Relay/Registry/Invariant.antt =====
-- Every method of internal/relay/registry.go keeps the registry well formed.
use token_go.Base.{
  ℕ, Bytes, [], ◌∷◌, some, Map, lookup, insert, delete, ◌≡◌, refl, arith, insert-Distinct,
  delete-Distinct, Option-cases, inl, inr,
}
use token_go.Relay.Registry.{
  Registry, ExitEntry, IsValid, Keyed, new_registry, register, remove, remove_if_match,
  update_heartbeat, cleanup_loop, cleanup,
}

insert-Keyed :
    (k : Bytes) (e : ExitEntry) (m : Map ExitEntry)
    → e.pub_key_hash ≡ k
    → Keyed m
    → Keyed (insert k e m)
unfolding insert
insert-Keyed k e [] h v = (h, tt)
insert-Keyed k e ((i, w) ∷ m) h v = ground (arith, insert-Keyed k e m h v.1)

delete-Keyed : (k : Bytes) (m : Map ExitEntry) → Keyed m → Keyed (delete k m)
unfolding delete
delete-Keyed k [] v = tt
delete-Keyed k ((i, w) ∷ m) v = ground (arith, delete-Keyed k m v.1)

pub Keyed-lookup :
    (k : Bytes) (e : ExitEntry) (m : Map ExitEntry)
    → Keyed m
    → lookup k m ≡ some e
    → e.pub_key_hash ≡ k
unfolding lookup
Keyed-lookup k e [] v h = cc
Keyed-lookup k e ((i, w) ∷ m) v h = ground (arith, Keyed-lookup k e m v.1)

pub insert-IsValid :
    (k : Bytes) (e : ExitEntry) (r : Registry)
    → e.pub_key_hash ≡ k
    → IsValid r
    → IsValid (record { entries = insert k e r.entries })
insert-IsValid k e r h v = record {
  distinct = insert-Distinct k e r.entries v.distinct;
  keyed = insert-Keyed k e r.entries h v.keyed;
}

pub delete-IsValid :
    (k : Bytes) (r : Registry) → IsValid r → IsValid (record { entries = delete k r.entries })
delete-IsValid k r v = record {
  distinct = delete-Distinct k r.entries v.distinct;
  keyed = delete-Keyed k r.entries v.keyed;
}

pub new_registry-IsValid : IsValid new_registry
unfolding new_registry
new_registry-IsValid = record { distinct = tt; keyed = tt }

pub register-IsValid :
    (now : ℕ) (k : Bytes) (conn : ℕ) (key_config : Bytes) (r : Registry)
    → IsValid r
    → IsValid (register now k conn key_config r).0
unfolding register
register-IsValid now k conn key_config r v = insert-IsValid k _ r refl v

pub remove-IsValid : (k : Bytes) (r : Registry) → IsValid r → IsValid (remove k r)
unfolding remove
remove-IsValid k r v = ground (arith, delete-IsValid k r v)

pub remove_if_match-IsValid :
    (k : Bytes) (conn : ℕ) (r : Registry) → IsValid r → IsValid (remove_if_match k conn r).0
unfolding remove_if_match
remove_if_match-IsValid k conn r v = ground (arith, delete-IsValid k r v)

pub update_heartbeat-IsValid :
    (now : ℕ) (k : Bytes) (r : Registry) → IsValid r → IsValid (update_heartbeat now k r)
unfolding update_heartbeat
update_heartbeat-IsValid now k r v = elim (Option-cases (lookup k r.entries)) [
  | inl e ↦ rw (e, update_heartbeat) v
  | inr (entry, e) ↦
      rw (e, update_heartbeat)
        (insert-IsValid k (record entry { last_heartbeat = now }) r
          (Keyed-lookup k entry r.entries v.keyed e) v)
]

cleanup_loop-IsValid :
    (now timeout : ℕ) (xs : Map ExitEntry) (r : Registry)
    → IsValid r
    → IsValid (cleanup_loop now timeout xs r).0
unfolding cleanup_loop
cleanup_loop-IsValid now timeout [] r v = v
cleanup_loop-IsValid now timeout ((hash, e) ∷ rest) r v = ground (
  arith,
  cleanup_loop-IsValid now timeout rest r v,
  cleanup_loop-IsValid now timeout rest (record { entries = delete hash r.entries })
      (delete-IsValid hash r v),
)

pub cleanup-IsValid :
    (now timeout : ℕ) (r : Registry) → IsValid r → IsValid (cleanup now timeout r).0
unfolding cleanup
cleanup-IsValid now timeout r v = cleanup_loop-IsValid now timeout r.entries r v
