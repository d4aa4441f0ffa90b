-- ===== src/Relay/Registry/Listing.antt =====
-- `ListExitKeys` of internal/relay/registry.go: what a Client learns of the registered Exits.
use token_go.Base.{
  ◌<◌, Bytes, [], ◌∷◌, some, Map, lookup, length, ◌≡◌, arith, Among, inl, inr, Distinct, ltb,
  Bool-cases, true,
}
use mathlib.Core.Logic.{◌↔◌}
use token_go.Protocol.{ExitKeyEntry}
use token_go.Relay.Registry.{Registry, ExitEntry, IsValid, Keyed, list_loop, list_exit_keys}

-- The hash has an entry with this key configuration, which is not empty.
abbrev pub Offers : Map ExitEntry → ExitKeyEntry → Type 0
Offers m x =
    (e : ExitEntry) × (lookup x.pub_key_hash m ≡ some e)
    × (e.key_config ≡ x.key_config)
    × (0 < length x.key_config)

Offers-cons :
    (hash : Bytes) (e : ExitEntry) (m : Map ExitEntry) (x : ExitKeyEntry)
    → Distinct ((hash, e) ∷ m)
    → Offers m x
    → Offers ((hash, e) ∷ m) x
unfolding lookup
Offers-cons hash e m x d (f, h, c, p) = (f, ground arith, c, p)

list_loop_sound :
    (m : Map ExitEntry) (x : ExitKeyEntry)
    → Distinct m
    → Keyed m
    → Among x (list_loop m)
    → Offers m x
unfolding list_loop lookup
list_loop_sound [] x d v h = absurd h
list_loop_sound ((hash, e) ∷ m) x d v h = elim (Bool-cases (ltb 0 (length e.key_config))) [
  | inl full ↦ elim (listed full) [
    | inl here ↦ (e, ground arith, ground arith, ground arith)
    | inr there ↦ Offers-cons hash e m x d (list_loop_sound m x d.1 v.1 there)
  ]
  | inr empty ↦ Offers-cons hash e m x d (list_loop_sound m x d.1 v.1 (rw empty at h))
]
  where
    listed :
        ltb 0 (length e.key_config) ≡ true
        → Among x
            (record { pub_key_hash = e.pub_key_hash; key_config = e.key_config } ∷ list_loop m)
    listed full = rw full at h

list_loop_complete :
    (m : Map ExitEntry) (x : ExitKeyEntry) → Keyed m → Offers m x → Among x (list_loop m)
unfolding list_loop lookup
list_loop_complete [] x v (e, h, c, p) = cc
list_loop_complete ((hash, e') ∷ m) x v (e, h, c, p) = ground (arith, list_loop_complete m x v.1)

-- On a valid registry, an entry is listed exactly if the registry has its hash with its key
-- configuration, and that is not empty.
pub list_exit_keys_lem :
    (r : Registry) (x : ExitKeyEntry) → IsValid r → Among x (list_exit_keys r) ↔ Offers r.entries x
unfolding list_exit_keys
list_exit_keys_lem r x v =
    (list_loop_sound r.entries x v.distinct v.keyed, list_loop_complete r.entries x v.keyed)
