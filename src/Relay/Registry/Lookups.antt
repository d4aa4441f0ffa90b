-- ===== src/Relay/Registry/Lookups.antt =====
-- What the methods of internal/relay/registry.go do to later lookups.
use token_go.Base.{
  ℕ, Bytes, List, [], ◌∷◌, Option, none, some, true, false, lookup, bytes_discrete, lookup-insert,
  lookup-delete, ite, ◌≡◌, ◌≢◌, arith, ◌⊎◌, inl, inr, text, Option-cases,
}
use token_go.Relay.Registry.{
  Registry, Close, register, lookup_conn, remove, remove_if_match, update_heartbeat, close_old,
}

-- The connections that a registration closes.
abbrev pub superseded : Option ℕ → List Close
superseded none = []
superseded (some c) = record { conn = c; code = 0; reason = text "replaced by new connection" } ∷ []

-- A registration makes its connection the one for its hash, closes the connection that the hash had
-- before and no other, and leaves the other hashes alone.
pub register_lem :
    (now : ℕ) (k j : Bytes) (conn : ℕ) (key_config : Bytes) (r : Registry)
    → (lookup_conn j (register now k conn key_config r).0
        ≡ ite (bytes_discrete k j) (some conn) (lookup_conn j r))
      × ((register now k conn key_config r).1 ≡ superseded (lookup_conn k r))
unfolding register lookup_conn close_old
register_lem now k j conn key_config r = (
  ground (
    arith,
    lookup-insert k j
        (record {
          pub_key_hash = k;
          conn = conn;
          key_config = key_config;
          registered_at = now;
          last_heartbeat = now;
        })
        r.entries,
  ),
  ground arith,
)

-- `RemoveIfMatch` answers true exactly if the hash has that connection now; then the hash is gone
-- and every other hash is as before, else nothing changes.
pub remove_if_match_lem :
    (k j : Bytes) (conn : ℕ) (r : Registry)
    → ((lookup_conn k r ≡ some conn)
        × ((remove_if_match k conn r).1 ≡ true)
        × (lookup_conn j (remove_if_match k conn r).0
            ≡ ite (bytes_discrete k j) none (lookup_conn j r)))
      ⊎ ((lookup_conn k r ≢ some conn) × (remove_if_match k conn r ≡ (r, false)))
unfolding remove_if_match lookup_conn
remove_if_match_lem k j conn r = ground (arith, lookup-delete k j r.entries)

pub remove_lem :
    (k j : Bytes) (r : Registry)
    → lookup_conn j (remove k r) ≡ ite (bytes_discrete k j) none (lookup_conn j r)
unfolding remove lookup_conn
remove_lem k j r = ground (arith, lookup-delete k j r.entries)

-- A heartbeat changes no connection; it moves the time of its own hash, and no other entry.
pub update_heartbeat_lem :
    (now : ℕ) (k j : Bytes) (r : Registry)
    → (lookup_conn j (update_heartbeat now k r) ≡ lookup_conn j r)
      × (lookup j (update_heartbeat now k r).entries ≡ elim (lookup j r.entries) [
        | none ↦ none
        | some e ↦ some (ite (bytes_discrete k j) (record e { last_heartbeat = now }) e)
      ])
unfolding update_heartbeat lookup_conn
update_heartbeat_lem now k j r = elim (Option-cases (lookup k r.entries)) [
  | inl e ↦ ground arith
  | inr (entry, e) ↦
      ground (arith, lookup-insert k j (record entry { last_heartbeat = now }) r.entries)
]
