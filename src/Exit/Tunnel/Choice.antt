-- ===== src/Exit/Tunnel/Choice.antt =====
-- Which Relay `selectBestRelay` of internal/exit/tunnel.go picks.
use token_go.Base.{
  ℕ, ◌≤◌, Bytes, List, [], ◌∷◌, Option, some, true, false, ok, ◌≡◌, ◌≢◌, refl, arith, Among, ◌⊎◌,
  inl, inr, ltb, ◌||◌, Bool-cases, Option-cases, ap, sym, ◌∙◌, subst,
}
use token_go.Net.{AddrInfo, extract_quic_address, is_empty}
use token_go.Exit.Tunnel.{Best, probe_one, probe_loop, select_best_relay}

module _ (probe : Bytes → Bytes → Option ℕ) where
  -- A Relay with an address that answers a probe in the time `t`.
  abbrev pub Answers : AddrInfo → ℕ → Type 0
  Answers r t =
      (is_empty (extract_quic_address r.addrs) ≡ false)
      × (probe (extract_quic_address r.addrs) r.id ≡ some t)

  abbrev IsFound : Best → Type 0
  IsFound b = is_empty b.addr ≡ false

  probe_one_old :
      (best : Best) (r : AddrInfo)
      → IsFound best
      → IsFound (probe_one probe best r) × ((probe_one probe best r).rtt ≤ best.rtt)
  unfolding probe_one
  probe_one_old best r h = ground arith

  probe_one_new :
      (best : Best) (r : AddrInfo) (t : ℕ)
      → Answers r t
      → IsFound (probe_one probe best r) × ((probe_one probe best r).rtt ≤ t)
  unfolding probe_one
  probe_one_new best r t a = ground arith

  -- The Relay that a round leaves is the one before, or the one that was probed.
  probe_one_origin :
      (best : Best) (r : AddrInfo)
      → (probe_one probe best r ≡ best)
        ⊎ ((t : ℕ) × Answers r t
            × (probe_one probe best r
                ≡ record { addr = extract_quic_address r.addrs; peer_id = r.id; rtt = t }))
  unfolding probe_one
  probe_one_origin best r = elim (Bool-cases (is_empty (extract_quic_address r.addrs))) [
    | inl no_address ↦ inl (rw (no_address, probe_one) refl)
    | inr address ↦ elim (Option-cases (probe (extract_quic_address r.addrs) r.id)) [
      | inl silent ↦ inl (rw (address, silent, probe_one) refl)
      | inr (t, e) ↦ elim (Bool-cases (is_empty best.addr || ltb t best.rtt)) [
        | inl taken ↦ inr (t, (address, e), rw (address, e, taken, probe_one) refl)
        | inr left ↦ inl (rw (address, e, left, probe_one) refl)
      ]
    ]
  ]

  probe_loop_old :
      (best : Best) (relays : List AddrInfo)
      → IsFound best
      → IsFound (probe_loop probe best relays) × ((probe_loop probe best relays).rtt ≤ best.rtt)
  unfolding probe_loop
  probe_loop_old best [] h = (h, omega arith)
  probe_loop_old best (r ∷ relays) h =
      let (kept, less) = probe_one_old best r h in
      let (done, less') = probe_loop_old (probe_one probe best r) relays kept in
      (done, omega (arith, less, less'))

  probe_loop_new :
      (best : Best) (relays : List AddrInfo) (r : AddrInfo) (t : ℕ)
      → Among r relays
      → Answers r t
      → IsFound (probe_loop probe best relays) × ((probe_loop probe best relays).rtt ≤ t)
  unfolding probe_loop
  probe_loop_new best [] r t m a = absurd m
  probe_loop_new best (s ∷ relays) r t (inl same) a =
      let (found, less) = probe_one_new best s t (subst (λ x. Answers x t) (sym same) a) in
      let (done, less') = probe_loop_old (probe_one probe best s) relays found in
      (done, omega (arith, less, less'))
  probe_loop_new best (s ∷ relays) r t (inr m) a =
      probe_loop_new (probe_one probe best s) relays r t m a

  abbrev IsProbed : List AddrInfo → Best → Type 0
  IsProbed relays b =
      (r : AddrInfo) × (t : ℕ) × Among r relays
      × Answers r t
      × (b ≡ record { addr = extract_quic_address r.addrs; peer_id = r.id; rtt = t })

  probe_loop_origin :
      (best : Best) (relays : List AddrInfo)
      → (probe_loop probe best relays ≡ best) ⊎ IsProbed relays (probe_loop probe best relays)
  unfolding probe_loop
  probe_loop_origin best [] = inl refl
  probe_loop_origin best (s ∷ relays) = elim (probe_loop_origin (probe_one probe best s) relays) [
    | inr (r, t, m, a, e) ↦ inr (r, t, inr m, a, e)
    | inl same ↦ elim (probe_one_origin best s) [
      | inl old ↦ inl (same ∙ old)
      | inr (t, a, e) ↦ inr (s, t, inl refl, a, same ∙ e)
    ]
  ]

  -- If some Relay has an address and answers a probe, one is chosen: it is in the list, it answers at
  -- the chosen address, and no Relay that answers does so in less time.
  pub select_best_relay_lem :
      (relays : List AddrInfo) (r : AddrInfo) (t : ℕ)
      → Among r relays
      → Answers r t
      → (best : AddrInfo) × (least : ℕ) × Among best relays
        × Answers best least
        × (select_best_relay probe relays ≡ ok (extract_quic_address best.addrs, best.id))
        × ((s : AddrInfo) (u : ℕ) → Among s relays → Answers s u → least ≤ u)
  unfolding select_best_relay
  select_best_relay_lem relays r t m a =
      let none_yet : Best = record { addr = []; peer_id = []; rtt = 0 } in
      let (found, _) = probe_loop_new none_yet relays r t m a in
      elim (probe_loop_origin none_yet relays) [
        | inl nothing ↦ absurd (true_ne_false (ap (λ b. is_empty b.addr) (sym nothing) ∙ found))
        | inr (best, least, m', a', e) ↦ (
          best,
          least,
          m',
          a',
          rw e (rw (a'.0) refl),
          λ s u among answers.
              omega
                (arith, ap (λ b. b.rtt) e, (probe_loop_new none_yet relays s u among answers).1),
        )
      ]
    where
      true_ne_false : true ≢ false
      true_ne_false e = cc
