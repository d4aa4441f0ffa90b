-- ===== src/Dht/Bootstrap.antt =====
-- internal/dht/peers.go: bootstrap peers from three sources, merged by their id.
-- Parsing of multiaddrs and of JSON, and the HTTP request, are parameters; `none` is an error.
pub mod Merge
use token_go.Base.{
  ℕ, Bytes, text, List, [], ◌∷◌, ◌++◌, map, Option, none, some, Bool, true, false, Map, lookup,
  insert, not, ◌&&◌, ◌==◌, if◌then◌else◌,
}
use token_go.Net.{AddrInfo, is_empty}

abbrev pub no_addrs : List Bytes → Bool
no_addrs [] = true
no_addrs (a ∷ as') = false

-- `p.ID != "" && len(p.Addrs) > 0`
unfoldable pub usable : AddrInfo → Bool
usable p = not (is_empty p.id) && not (no_addrs p.addrs)

-- A peer that is known already gets the new addresses behind its own.
abbrev pub joined : Option AddrInfo → AddrInfo → AddrInfo
joined none p = p
joined (some existing) p = record existing { addrs = existing.addrs ++ p.addrs }

unfoldable pub add_peer : AddrInfo → Map AddrInfo → Map AddrInfo
add_peer p peers = if usable p then insert p.id (joined (lookup p.id peers) p) peers else peers

unfoldable pub add_peers : List AddrInfo → Map AddrInfo → Map AddrInfo
unfolding add_peer usable
add_peers [] peers = peers
add_peers (p ∷ ps) peers = add_peers ps (add_peer p peers)

-- The results of the three sources, in the order in which they arrive.
unfoldable pub merge_batches : List (List AddrInfo) → Map AddrInfo → Map AddrInfo
unfolding add_peers
merge_batches [] peers = peers
merge_batches (batch ∷ batches) peers = merge_batches batches (add_peers batch peers)

unfoldable pub parse_multiaddrs : (Bytes → Option AddrInfo) → List Bytes → List AddrInfo
parse_multiaddrs parse [] = []
parse_multiaddrs parse (addr ∷ addrs) =
    let rest = parse_multiaddrs parse addrs in
    if is_empty addr then rest else elim (parse addr) [ none ↦ rest | some p ↦ p ∷ rest ]

pub record BootstrapPeerList : Type 0 where
  pub version : ℕ
  pub peers : List Bytes

-- What a request gives: the status, and the body if it can be read.
pub record Fetched : Type 0 where
  pub status_code : ℕ
  pub body : Option Bytes

module _ (parse : Bytes → Option AddrInfo) (unmarshal : Bytes → Option BootstrapPeerList)
    (get : Bytes → Option Fetched) where
  abbrev pub peers_of : Option BootstrapPeerList → Option (List AddrInfo)
  peers_of none = none
  peers_of (some list) =
      if list.version == 1 then some (parse_multiaddrs parse list.peers) else none

  unfoldable pub fetch_from_url : Bytes → Option (List AddrInfo)
  unfolding parse_multiaddrs
  fetch_from_url url = elim (get url) [
    | none ↦ none
    | some resp ↦
        if resp.status_code == 200
        then elim resp.body [ none ↦ none | some bytes ↦ peers_of (unmarshal bytes) ]
        else none
  ]

  -- The first URL that gives any peers.
  unfoldable pub fetch_bootstrap_peers : List Bytes → List AddrInfo
  unfolding fetch_from_url
  fetch_bootstrap_peers [] = []
  fetch_bootstrap_peers (url ∷ urls) = elim (fetch_from_url url) [
    | none ↦ fetch_bootstrap_peers urls
    | some [] ↦ fetch_bootstrap_peers urls
    | some (p ∷ ps) ↦ p ∷ ps
  ]

  abbrev pub values : Map AddrInfo → List AddrInfo
  values [] = []
  values ((id, p) ∷ rest) = p ∷ values rest

  -- `arrive` is the order in which the three goroutines deliver.
  unfoldable pub resolve_bootstrap_peers :
      (List (List AddrInfo) → List (List AddrInfo))
      → List Bytes
      → List Bytes
      → List Bytes
      → List AddrInfo
  unfolding merge_batches fetch_bootstrap_peers parse_multiaddrs
  resolve_bootstrap_peers arrive default_peers urls config_peers = values (
      merge_batches
        (arrive (
          parse_multiaddrs parse default_peers
          ∷ fetch_bootstrap_peers urls
          ∷ parse_multiaddrs parse config_peers
          ∷ []))
        [])
