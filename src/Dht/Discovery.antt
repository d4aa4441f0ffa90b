-- ===== src/Dht/Discovery.antt =====
-- internal/dht/discovery.go: the Relays that a node finds in the DHT, and the cache of them.
-- The DHT and the hash of a namespace are parameters. `time.Now()` is an argument, in nanoseconds;
-- a lookup of the DHT is one step with the writing of the cache.
pub mod Cache
use token_go.Base.{
  ℕ, ◌+◌, ◌*◌, ◌^◌, Bytes, text, List, [], ◌∷◌, length, Option, none, some, Bool, bytes_discrete,
  ite, not, ◌&&◌, ltb, if◌then◌else◌,
}
use token_go.Net.{AddrInfo}
use token_go.Dht.Bootstrap.{no_addrs}

abbrev pub relay_service_namespace : Bytes
relay_service_namespace = text "/tokengo/relay/v1"

abbrev pub exit_service_namespace : Bytes
exit_service_namespace = text "/tokengo/exit/v1"

abbrev pub cache_refresh_interval : ℕ
cache_refresh_interval = 120 * 10 ^ 9

abbrev pub max_discovery_count : ℕ
max_discovery_count = 20

pub record ServiceCache : Type 0 where
  pub relays : List AddrInfo
  pub relay_ttl : ℕ

-- The node's own id, and the cache.
pub record Discovery : Type 0 where
  pub self : Bytes
  pub cache : ServiceCache

-- The zero `time.Time` is before every time.
unfoldable pub new_discovery : Bytes → Discovery
new_discovery self = record { self = self; cache = record { relays = []; relay_ttl = 0 } }

-- `FindProvidersAsync(ctx, cid, count)`: what its channel delivers.
abbrev pub Network : Type 0
Network = Bytes → ℕ → List AddrInfo

-- The loop over the channel.
unfoldable pub keep_providers : Bytes → List AddrInfo → List AddrInfo
unfolding bytes_discrete
keep_providers self [] = []
keep_providers self (p ∷ ps) =
    let rest = keep_providers self ps in
    ite (bytes_discrete p.id self) rest (if not (no_addrs p.addrs) then p ∷ rest else rest)

-- `make` and `copy`
abbrev pub copied : List AddrInfo → List AddrInfo
copied [] = []
copied (p ∷ ps) = p ∷ copied ps

unfoldable pub get_cached_relays : Discovery → List AddrInfo
get_cached_relays d = copied d.cache.relays

unfoldable pub relay_count : Discovery → ℕ
relay_count d = length d.cache.relays

abbrev store : ℕ → List AddrInfo → Discovery → Discovery
store now peers d = record d {
  cache = record { relays = peers; relay_ttl = now + cache_refresh_interval };
}

-- `time.Now().Before(d.cache.relayTTL) && len(d.cache.relays) > 0`
abbrev pub is_fresh : ℕ → Discovery → Bool
is_fresh now d = ltb now d.cache.relay_ttl && ltb 0 (length d.cache.relays)

module _ (service_cid : Bytes → Option Bytes) where
  unfoldable pub find_providers : Network → Bytes → Bytes → Option (List AddrInfo)
  unfolding keep_providers
  find_providers network self namespace = elim (service_cid namespace) [
    | none ↦ none
    | some c ↦ some (keep_providers self (network c max_discovery_count))
  ]

  unfoldable pub refresh_relays : ℕ → Network → Discovery → Discovery
  unfolding find_providers
  refresh_relays now network d = elim (find_providers network d.self relay_service_namespace) [
    | none ↦ d
    | some peers ↦ store now peers d
  ]

  -- `none` is an error.
  unfoldable pub discover_relays : ℕ → Network → Discovery → Discovery × Option (List AddrInfo)
  unfolding find_providers
  discover_relays now network d =
      if is_fresh now d
      then (d, some (copied d.cache.relays))
      else elim (find_providers network d.self relay_service_namespace) [
        | none ↦ (d, none)
        | some peers ↦ (store now peers d, some peers)
      ]
