-- ===== src/Relay/Registry/Ticker.antt =====
-- `StartCleanup` of internal/relay/registry.go: a `cleanup` every half timeout, between which the other
-- methods are called.
use token_go.Base.{
  ℕ, ◌+◌, ◌*◌, ◌/◌, ◌≤◌, ◌<◌, ◌⊎◌, inl, inr, Bytes, List, [], ◌∷◌, length, All, Option, none, some,
  lookup, ◌≡◌, ◌≢◌, refl, arith, dec_lt,
}
use token_go.Relay.Registry.{Registry, ExitEntry, IsValid, cleanup, lookup_conn}
use token_go.Relay.Registry.Invariant.{cleanup-IsValid}
use token_go.Relay.Registry.Cleanup.{cleanup_lem}
use token_go.Relay.Registry.Refines.{
  Op, code_step, code_run, spec_step, entries_of, code_step-IsValid, entries_lem,
}

-- The calls up to each tick, from `now` on; the end of the list is the end of the context. Each tick is
-- in time, and half a timeout is not 0, for which `NewTicker` panics.
unfoldable pub start_cleanup : ℕ → ℕ → List (List Op) → Registry → Registry
unfolding cleanup
start_cleanup timeout now [] r = r
start_cleanup timeout now (calls ∷ rounds) r =
    let tick = now + timeout / 2 in
    start_cleanup timeout tick rounds (cleanup tick timeout (code_run calls r).0).0

-- A call that neither registers a hash nor takes a heartbeat of it.
abbrev pub Quiet : Bytes → Op → Type 0
Quiet hash (Op.call_register now k conn key_config) = k ≢ hash
Quiet hash (Op.call_heartbeat now k) = k ≢ hash
Quiet hash (Op.call_lookup k) = Unit {0}
Quiet hash (Op.call_remove k) = Unit {0}
Quiet hash (Op.call_remove_if_match k conn) = Unit {0}
Quiet hash (Op.call_cleanup now timeout) = Unit {0}

-- The last heartbeat is at most at `time`.
abbrev pub SilentSince : ℕ → Option ExitEntry → Type 0
SilentSince time none = Unit {0}
SilentSince time (some e) = e.last_heartbeat ≤ time

-- Such a call leaves the hash its entry, or none.
Quiet-spec_step :
    (hash : Bytes) (op : Op) (f : Bytes → Option ExitEntry)
    → Quiet hash op
    → ((spec_step op f).0 hash ≡ none) ⊎ ((spec_step op f).0 hash ≡ f hash)
Quiet-spec_step hash (Op.call_register now k conn key_config) f q = ground arith
Quiet-spec_step hash (Op.call_heartbeat now k) f q = ground arith
Quiet-spec_step hash (Op.call_lookup k) f q = inr refl
Quiet-spec_step hash (Op.call_remove k) f q = ground arith
Quiet-spec_step hash (Op.call_remove_if_match k conn) f q = ground arith
Quiet-spec_step hash (Op.call_cleanup now timeout) f q = ground arith

-- What holds of the entry and of none.
module _ (hash : Bytes) (P : Option ExitEntry → Type 0) (base : P none) where
  code_step-keeps :
      (op : Op) (r : Registry)
      → IsValid r
      → Quiet hash op
      → P (lookup hash r.entries)
      → P (lookup hash (code_step op r).0.entries)
  code_step-keeps op r v q h = elim (Quiet-spec_step hash op (entries_of r) q) [
    | inl gone ↦ rw (entries_lem op r hash v, gone) base
    | inr same ↦ rw (entries_lem op r hash v, same) h
  ]

  code_run-keeps :
      (calls : List Op) (r : Registry)
      → IsValid r
      → All (Quiet hash) calls
      → P (lookup hash r.entries)
      → IsValid (code_run calls r).0 × P (lookup hash (code_run calls r).0.entries)
  code_run-keeps [] r v q h = (v, h)
  code_run-keeps (op ∷ calls) r v (q, qs) h =
      code_run-keeps calls (code_step op r).0 (code_step-IsValid op r v) qs
        (code_step-keeps op r v q h)

  start_cleanup-keeps :
      (timeout now : ℕ) (rounds : List (List Op)) (r : Registry)
      → IsValid r
      → All (All (Quiet hash)) rounds
      → P (lookup hash r.entries)
      → P (lookup hash (start_cleanup timeout now rounds r).entries)
  unfolding start_cleanup
  start_cleanup-keeps timeout now [] r v q h = h
  start_cleanup-keeps timeout now (calls ∷ rounds) r v (q, qs) h =
      let (v', h') = code_run-keeps calls r v q h in
      let op = Op.call_cleanup (now + timeout / 2) timeout in
      start_cleanup-keeps timeout (now + timeout / 2) rounds (code_step op (code_run calls r).0).0
        (code_step-IsValid op _ v') qs (code_step-keeps op _ v' tt h')

-- A cleanup takes an entry whose last heartbeat is out of date.
sweep-gone :
    (tick timeout time : ℕ) (hash : Bytes) (r : Registry)
    → IsValid r
    → SilentSince time (lookup hash r.entries)
    → time + timeout < tick
    → lookup hash (cleanup tick timeout r).0.entries ≡ none
sweep-gone tick timeout time hash r v silent late =
    ground (arith, (cleanup_lem tick timeout r hash v).0)

gone_by :
    (hash : Bytes) (timeout time now : ℕ) (rounds : List (List Op)) (r : Registry)
    → IsValid r
    → All (All (Quiet hash)) rounds
    → SilentSince time (lookup hash r.entries)
    → now ≤ time + timeout
    → time + timeout < now + length rounds * (timeout / 2)
    → lookup hash (start_cleanup timeout now rounds r).entries ≡ none
unfolding start_cleanup
gone_by hash timeout time now [] r v q silent before enough = absurd (omega arith)
gone_by hash timeout time now (calls ∷ rounds) r v (q, qs) silent before enough =
    let tick = now + timeout / 2 in
    let (v', silent') = code_run-keeps hash (SilentSince time) tt calls r v q silent in
    let r' = (cleanup tick timeout (code_run calls r).0).0 in
    let v'' = cleanup-IsValid tick timeout (code_run calls r).0 v' in
    elim (dec_lt (time + timeout) tick) [
      | yes late ↦
          start_cleanup-keeps hash (λ o. o ≡ none) refl timeout tick rounds r' v'' qs
            (sweep-gone tick timeout time hash (code_run calls r).0 v' silent' late)
      | no early ↦
          gone_by hash timeout time tick rounds r' v'' qs
            (code_step-keeps hash (SilentSince time) tt (Op.call_cleanup tick timeout)
              (code_run calls r).0 v' tt silent')
            (omega arith) (omega arith)
    ]

-- On a valid registry whose entry for a hash, if it has one, has no heartbeat later than `now`: if the
-- hash neither registers nor sends a heartbeat from `now` on, whatever else is called between the ticks,
-- then after ticks at half the timeout that span more than the timeout it has no connection.
pub silent_is_removed :
    (hash : Bytes) (timeout now : ℕ) (rounds : List (List Op)) (r : Registry)
    → IsValid r
    → SilentSince now (lookup hash r.entries)
    → All (All (Quiet hash)) rounds
    → timeout < length rounds * (timeout / 2)
    → lookup_conn hash (start_cleanup timeout now rounds r) ≡ none
unfolding lookup_conn
silent_is_removed hash timeout now rounds r v silent quiet enough =
    rw
      (
        gone_by hash timeout now now rounds r v quiet silent (omega arith) (omega (arith, enough)),
        lookup_conn,
      )
      refl
