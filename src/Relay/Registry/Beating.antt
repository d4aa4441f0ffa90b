-- ===== src/Relay/Registry/Beating.antt =====
-- `StartCleanup` of internal/relay/registry.go spares an Exit that sends a heartbeat before each tick.
use token_go.Base.{
  ℕ, ◌+◌, ◌/◌, ◌≤◌, ◌⊎◌, inl, inr, Bytes, List, [], ◌∷◌, All, Option, none, some, lookup, ◌≡◌, ◌≢◌,
  subst, sym, arith,
}
use token_go.Relay.Registry.{Registry, ExitEntry, IsValid, cleanup, lookup_conn}
use token_go.Relay.Registry.Invariant.{cleanup-IsValid}
use token_go.Relay.Registry.Cleanup.{cleanup_lem}
use token_go.Relay.Registry.Refines.{
  Op, code_step, code_run, spec_step, entries_of, code_step-IsValid, entries_lem,
}
use token_go.Relay.Registry.Ticker.{start_cleanup}

-- A call that does not take the hash away or register it anew; no heartbeat is before `now`.
abbrev pub Leaves : Bytes → ℕ → Op → Type 0
Leaves hash now (Op.call_register time k conn key_config) = k ≢ hash
Leaves hash now (Op.call_heartbeat time k) = now ≤ time
Leaves hash now (Op.call_lookup k) = Unit {0}
Leaves hash now (Op.call_remove k) = k ≢ hash
Leaves hash now (Op.call_remove_if_match k conn) = k ≢ hash
Leaves hash now (Op.call_cleanup time timeout) = ⊥

-- One of the calls is a heartbeat of the hash.
abbrev pub Beats : Bytes → List Op → Type 0
Beats hash [] = ⊥
Beats hash (op ∷ ops) = ((time : ℕ) × (op ≡ Op.call_heartbeat time hash)) ⊎ Beats hash ops

abbrev pub Beating : Bytes → ℕ → ℕ → List (List Op) → Type 0
Beating hash timeout now [] = Unit {0}
Beating hash timeout now (calls ∷ rounds) =
    All (Leaves hash now) calls × Beats hash calls × Beating hash timeout (now + timeout / 2) rounds

-- The entry is of that connection, with a heartbeat not before `time`.
abbrev Held : ℕ → ℕ → Option ExitEntry → Type 0
Held conn time none = ⊥
Held conn time (some e) = (e.conn ≡ conn) × (time ≤ e.last_heartbeat)

module _ (hash : Bytes) (conn : ℕ) where
  Leaves-spec_step :
      (time now : ℕ) (op : Op) (f : Bytes → Option ExitEntry)
      → time ≤ now
      → Leaves hash now op
      → Held conn time (f hash)
      → Held conn time ((spec_step op f).0 hash)
  Leaves-spec_step time now (Op.call_register t k c key_config) f le l h = ground arith
  Leaves-spec_step time now (Op.call_heartbeat t k) f le l h = ground arith
  Leaves-spec_step time now (Op.call_lookup k) f le l h = h
  Leaves-spec_step time now (Op.call_remove k) f le l h = ground arith
  Leaves-spec_step time now (Op.call_remove_if_match k c) f le l h = ground arith
  Leaves-spec_step time now (Op.call_cleanup t timeout) f le l h = absurd l

  heartbeat-spec_step :
      (time now t : ℕ) (f : Bytes → Option ExitEntry)
      → now ≤ t
      → Held conn time (f hash)
      → Held conn now ((spec_step (Op.call_heartbeat t hash) f).0 hash)
  heartbeat-spec_step time now t f le h = ground arith

  abbrev HasEntry : ℕ → Registry → Type 0
  HasEntry time r = IsValid r × Held conn time (lookup hash r.entries)

  Leaves-code_step :
      (time now : ℕ) (op : Op) (r : Registry)
      → time ≤ now
      → Leaves hash now op
      → HasEntry time r
      → HasEntry time (code_step op r).0
  Leaves-code_step time now op r le l (v, h) = (
    code_step-IsValid op r v,
    subst (Held conn time) (sym (entries_lem op r hash v))
        (Leaves-spec_step time now op (entries_of r) le l h),
  )

  Leaves-code_run :
      (time now : ℕ) (calls : List Op) (r : Registry)
      → time ≤ now
      → All (Leaves hash now) calls
      → HasEntry time r
      → HasEntry time (code_run calls r).0
  Leaves-code_run time now [] r le ls h = h
  Leaves-code_run time now (op ∷ calls) r le (l, ls) h =
      Leaves-code_run time now calls (code_step op r).0 le ls
        (Leaves-code_step time now op r le l h)

  heartbeat-code_step :
      (time now : ℕ) (op : Op) (r : Registry)
      → Leaves hash now op
      → (t : ℕ) × (op ≡ Op.call_heartbeat t hash)
      → HasEntry time r
      → HasEntry now (code_step op r).0
  heartbeat-code_step time now op r l (t, e) (v, h) =
      let le : now ≤ t = subst (Leaves hash now) e l in
      (
        code_step-IsValid op r v,
        subst (Held conn now) (sym (entries_lem op r hash v)) (
            subst (λ o. Held conn now ((spec_step o (entries_of r)).0 hash)) (sym e)
              (heartbeat-spec_step time now t (entries_of r) le h)),
      )

  Beats-code_run :
      (time now : ℕ) (calls : List Op) (r : Registry)
      → time ≤ now
      → All (Leaves hash now) calls
      → Beats hash calls
      → HasEntry time r
      → HasEntry now (code_run calls r).0
  Beats-code_run time now [] r le ls b h = absurd b
  Beats-code_run time now (op ∷ calls) r le (l, ls) (inl here) h =
      Leaves-code_run now now calls (code_step op r).0 (omega arith) ls
        (heartbeat-code_step time now op r l here h)
  Beats-code_run time now (op ∷ calls) r le (l, ls) (inr later) h =
      Beats-code_run time now calls (code_step op r).0 le ls later
        (Leaves-code_step time now op r le l h)

  -- The tick is half a timeout after `now`.
  sweep-spares :
      (timeout now : ℕ) (r : Registry)
      → HasEntry now r
      → HasEntry now (cleanup (now + timeout / 2) timeout r).0
  sweep-spares timeout now r (v, h) = (
    cleanup-IsValid (now + timeout / 2) timeout r v,
    ground (arith, (cleanup_lem (now + timeout / 2) timeout r hash v).0),
  )

  stays_held :
      (timeout time now : ℕ) (rounds : List (List Op)) (r : Registry)
      → time ≤ now
      → Beating hash timeout now rounds
      → HasEntry time r
      → (last : ℕ) × HasEntry last (start_cleanup timeout now rounds r)
  unfolding start_cleanup
  stays_held timeout time now [] r le b h = (time, h)
  stays_held timeout time now (calls ∷ rounds) r le (ls, beats, b) h =
      stays_held timeout now (now + timeout / 2) rounds
        (cleanup (now + timeout / 2) timeout (code_run calls r).0).0 (omega arith) b
        (sweep-spares timeout now (code_run calls r).0
          (Beats-code_run time now calls r le ls beats h))

  served-Held :
      (r : Registry) → lookup_conn hash r ≡ some conn → Held conn 0 (lookup hash r.entries)
  unfolding lookup_conn
  served-Held r h = ground arith

  Held-served :
      (time : ℕ) (r : Registry)
      → Held conn time (lookup hash r.entries)
      → lookup_conn hash r ≡ some conn
  unfolding lookup_conn
  Held-served time r h = ground arith

  -- On a valid registry in which the hash is served by `conn`: if before each tick, and not before
  -- `now` or the tick ahead of it, the hash sends a heartbeat, and between the ticks nobody calls
  -- `Register`, `Remove` or `RemoveIfMatch` for the hash, or `cleanup`, and no heartbeat is older than
  -- the last tick, then the hash is still served by `conn` at the end, however many ticks there are.
  pub heartbeats_keep :
      (timeout now : ℕ) (rounds : List (List Op)) (r : Registry)
      → IsValid r
      → lookup_conn hash r ≡ some conn
      → Beating hash timeout now rounds
      → lookup_conn hash (start_cleanup timeout now rounds r) ≡ some conn
  heartbeats_keep timeout now rounds r v served b =
      let (last, entry) =
        stays_held timeout 0 now rounds r (omega arith) b (v, served-Held r served) in
      Held-served last (start_cleanup timeout now rounds r) entry.1
