-- ===== src/Relay/Registry.antt =====
-- internal/relay/registry.go: which Exit connection serves which public key hash.
-- The mutex makes each method one step. `time.Now()` is an argument, in nanoseconds; a connection is
-- the number of the `quic.Connection` that it is; closing one is an entry of the returned list.
pub mod Lookups
pub mod Invariant
pub mod Cleanup
pub mod Listing
pub mod Refines
pub mod Ticker
pub mod Beating
pub mod Runs
use token_go.Base.{
  ℕ, ◌-◌, ◌<◌, Bytes, text, List, [], ◌∷◌, ◌++◌, length, Option, none, some, Bool, true, false, Map,
  lookup, insert, delete, ite, dec_lt, ℕ_discrete, ◌≡◌, Distinct, ltb, if◌then◌else◌,
}
use token_go.Protocol.{ExitKeyEntry}

pub record ExitEntry : Type 0 where
  pub pub_key_hash : Bytes
  pub conn : ℕ
  pub key_config : Bytes
  pub registered_at : ℕ
  pub last_heartbeat : ℕ

pub record Registry : Type 0 where
  pub entries : Map ExitEntry

-- `conn.CloseWithError(code, reason)`
pub record Close : Type 0 where
  pub conn : ℕ
  pub code : ℕ
  pub reason : Bytes

unfoldable pub new_registry : Registry
new_registry = record { entries = [] }

-- The old connection of a hash that registers again is closed.
unfoldable pub close_old : Option ExitEntry → List Close
close_old none = []
close_old (some old) =
    record { conn = old.conn; code = 0; reason = text "replaced by new connection" } ∷ []

unfoldable pub register : ℕ → Bytes → ℕ → Bytes → Registry → Registry × List Close
unfolding close_old
register now pub_key_hash conn key_config r = (
  record r { entries = insert pub_key_hash entry r.entries },
  close_old (lookup pub_key_hash r.entries),
)
  where
    entry : ExitEntry
    entry = record {
      pub_key_hash = pub_key_hash;
      conn = conn;
      key_config = key_config;
      registered_at = now;
      last_heartbeat = now;
    }

-- The method `Lookup`.
unfoldable pub lookup_conn : Bytes → Registry → Option ℕ
lookup_conn pub_key_hash r = elim (lookup pub_key_hash r.entries) [
  | none ↦ none
  | some entry ↦ some entry.conn
]

unfoldable pub remove : Bytes → Registry → Registry
remove pub_key_hash r = elim (lookup pub_key_hash r.entries) [
  | none ↦ r
  | some entry ↦ record r { entries = delete pub_key_hash r.entries }
]

unfoldable pub remove_if_match : Bytes → ℕ → Registry → Registry × Bool
unfolding ℕ_discrete
remove_if_match pub_key_hash conn r = elim (lookup pub_key_hash r.entries) [
  | none ↦ (r, false)
  | some entry ↦
      ite (ℕ_discrete entry.conn conn) (record r { entries = delete pub_key_hash r.entries }, true)
        (r, false)
]

-- The entry is shared by pointer, so the write shows in the map.
unfoldable pub update_heartbeat : ℕ → Bytes → Registry → Registry
update_heartbeat now pub_key_hash r = elim (lookup pub_key_hash r.entries) [
  | none ↦ r
  | some entry ↦ record r {
    entries = insert pub_key_hash (record entry { last_heartbeat = now }) r.entries;
  }
]

-- `now.Sub(entry.LastHeartbeat) > timeout`; a heartbeat in the future is not out of date in Go
-- either, for a timeout that is not negative.
abbrev pub is_expired : ℕ → ℕ → ExitEntry → Bool
is_expired now timeout entry = ltb timeout (now - entry.last_heartbeat)

-- One round of the loop in `cleanup`.
unfoldable pub cleanup_entry : ℕ → ℕ → Bytes → ExitEntry → Registry → Registry × List Close
cleanup_entry now timeout hash entry r =
    if is_expired now timeout entry
    then (
      record r { entries = delete hash r.entries },
      record { conn = entry.conn; code = 0; reason = text "heartbeat timeout" } ∷ [],
    )
    else (r, [])

-- The range loop visits the entries that the map had when the loop began.
unfoldable pub cleanup_loop : ℕ → ℕ → Map ExitEntry → Registry → Registry × List Close
unfolding cleanup_entry
cleanup_loop now timeout [] r = (r, [])
cleanup_loop now timeout ((hash, entry) ∷ rest) r =
    let (r', closed) = cleanup_entry now timeout hash entry r in
    let (r'', more) = cleanup_loop now timeout rest r' in (r'', closed ++ more)

unfoldable pub cleanup : ℕ → ℕ → Registry → Registry × List Close
unfolding cleanup_loop
cleanup now timeout r = cleanup_loop now timeout r.entries r

unfoldable pub list_loop : Map ExitEntry → List ExitKeyEntry
list_loop [] = []
list_loop ((hash, entry) ∷ rest) =
    if ltb 0 (length entry.key_config)
    then record { pub_key_hash = entry.pub_key_hash; key_config = entry.key_config }
      ∷ list_loop rest
    else list_loop rest

unfoldable pub list_exit_keys : Registry → List ExitKeyEntry
unfolding list_loop
list_exit_keys r = list_loop r.entries

unfoldable pub count : Registry → ℕ
count r = length r.entries

-- No hash has two entries, and each entry carries the hash that it is stored under.
abbrev pub Keyed : Map ExitEntry → Type 0
Keyed [] = Unit {0}
Keyed ((k, e) ∷ m) = (e.pub_key_hash ≡ k) × Keyed m

pub record IsValid (r : Registry) : Type 0 where
  pub distinct : Distinct r.entries
  pub keyed : Keyed r.entries
