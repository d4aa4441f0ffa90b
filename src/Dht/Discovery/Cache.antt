-- ===== src/Dht/Discovery/Cache.antt =====
-- What `DiscoverRelays` of internal/dht/discovery.go answers, after any calls of it and of
-- `refreshRelays`.
use token_go.Base.{
  ℕ, ◌+◌, ◌<◌, Bytes, List, [], ◌∷◌, Option, some, ◌≡◌, ◌≢◌, refl, arith, ap, Among, ◌⊎◌, inl, inr,
  false, true, Bool-cases,
}
use mathlib.Core.Logic.{◌↔◌}
use token_go.Net.{AddrInfo}
use token_go.Dht.Bootstrap.{no_addrs}
use token_go.Dht.Discovery.{
  Discovery, Network, new_discovery, keep_providers, find_providers, refresh_relays,
  discover_relays, copied, cache_refresh_interval, max_discovery_count, relay_service_namespace,
  is_fresh,
}

-- A call, with its time and with what the DHT would answer then.
pub data Event : Type 0 where
  refreshed discovered : (now : ℕ) (network : Network) → Event

abbrev pub time : Event → ℕ
time (Event.refreshed now network) = now
time (Event.discovered now network) = now

abbrev pub asked : Event → Network
asked (Event.refreshed now network) = network
asked (Event.discovered now network) = network

-- A provider that a node may use.
abbrev pub Wanted : Bytes → AddrInfo → List AddrInfo → Type 0
Wanted self p offered = Among p offered × (p.id ≢ self) × (no_addrs p.addrs ≡ false)

keep_providers_sound :
    (self : Bytes) (p : AddrInfo) (ps : List AddrInfo)
    → Among p (keep_providers self ps)
    → Wanted self p ps
unfolding keep_providers
keep_providers_sound self p [] h = absurd h
keep_providers_sound self p (q ∷ ps) h = ground (arith, keep_providers_sound self p ps)

keep_providers_complete :
    (self : Bytes) (p : AddrInfo) (ps : List AddrInfo)
    → Wanted self p ps
    → Among p (keep_providers self ps)
unfolding keep_providers
keep_providers_complete self p [] h = absurd h.0
keep_providers_complete self p (q ∷ ps) h = ground (arith, keep_providers_complete self p ps)

copied_lem : (ps : List AddrInfo) → copied ps ≡ ps
copied_lem [] = refl
copied_lem (p ∷ ps) = ap (◌∷◌ p) (copied_lem ps)

module _ (service_cid : Bytes → Option Bytes) where
  abbrev step : Event → Discovery → Discovery
  step (Event.refreshed now network) d = refresh_relays service_cid now network d
  step (Event.discovered now network) d = (discover_relays service_cid now network d).0

  -- The discovery after the calls, the last one first.
  abbrev pub after : Bytes → List Event → Discovery
  after self [] = new_discovery self
  after self (e ∷ past) = step e (after self past)

  module _ (c : Bytes) (named : service_cid relay_service_namespace ≡ some c) (self : Bytes) where
    -- The cache holds what the DHT answered at one of the calls, or nothing.
    abbrev Sourced : List Event → Discovery → Type 0
    Sourced past d =
        (d.self ≡ self)
        × ((d.cache.relays ≡ [])
            ⊎ ((e : Event) × Among e past
                × (d.cache ≡ record {
                  relays = keep_providers self (asked e c max_discovery_count);
                  relay_ttl = time e + cache_refresh_interval;
                })))

    earlier :
        (e : Event) (past : List Event) (d : Discovery) → Sourced past d → Sourced (e ∷ past) d
    earlier e past d (s, inl empty) = (s, inl empty)
    earlier e past d (s, inr (f, there, h)) = (s, inr (f, inr there, h))

    step-Sourced :
        (e : Event) (past : List Event) (d : Discovery)
        → Sourced past d
        → Sourced (e ∷ past) (step e d)
    unfolding refresh_relays discover_relays find_providers
    step-Sourced (Event.refreshed now network) past d (s, h) =
        rw (named, refresh_relays, s) (refl, inr (Event.refreshed now network, inl refl, refl))
    step-Sourced (Event.discovered now network) past d (s, h) = elim (Bool-cases (is_fresh now d)) [
      | inl fresh ↦
          rw (step, fresh, discover_relays) (earlier (Event.discovered now network) past d (s, h))
      | inr stale ↦
          rw (step, stale, named, discover_relays, s)
            (refl, inr (Event.discovered now network, inl refl, refl))
    ]

    after-Sourced : (past : List Event) → Sourced past (after self past)
    unfolding new_discovery
    after-Sourced [] = (refl, inl refl)
    after-Sourced (e ∷ past) = step-Sourced e past (after self past) (after-Sourced past)

    -- If the namespace has a CID, then after any calls `DiscoverRelays` answers without an error,
    -- with what the DHT answered at one call, this one or an earlier one that is less than the
    -- refresh interval old: exactly the providers of that answer that are not the node itself and
    -- have an address.
    pub discover_relays_lem :
        (past : List Event) (now : ℕ) (network : Network)
        → (peers : List AddrInfo) × (e : Event) × ((discover_relays service_cid now network
              (after self past)).1
            ≡ some peers)
          × Among e (Event.discovered now network ∷ past)
          × (now < time e + cache_refresh_interval)
          × ((p : AddrInfo) → Among p peers ↔ Wanted self p (asked e c max_discovery_count))
    unfolding discover_relays find_providers
    discover_relays_lem past now network = elim (Bool-cases (is_fresh now (after self past))) [
      | inr stale ↦ (
        keep_providers self (network c max_discovery_count),
        Event.discovered now network,
        rw (stale, named, (after-Sourced past).0) refl,
        inl refl,
        omega arith,
        λ p. (keep_providers_sound self p _, keep_providers_complete self p _),
      )
      | inl fresh ↦ elim (after-Sourced past).1 [
        | inl empty ↦ ground arith
        | inr (e, there, h) ↦ (
          keep_providers self (asked e c max_discovery_count),
          e,
          rw (fresh, copied_lem (after self past).cache.relays, h) refl,
          inr there,
          in_time _ _ fresh h,
          λ p. (keep_providers_sound self p _, keep_providers_complete self p _),
        )
      ]
    ]
      where
        in_time :
            (peers : List AddrInfo) (t : ℕ)
            → is_fresh now (after self past) ≡ true
            → (after self past).cache ≡ record { relays = peers; relay_ttl = t }
            → now < t
        in_time peers t fresh h = ground arith
