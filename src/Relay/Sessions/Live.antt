-- ===== src/Relay/Sessions/Live.antt =====
-- The registry never leads to a connection whose handler has ended.
use token_go.Base.{
  ℕ, ◌<◌, ◌≤◌, Bytes, List, [], ◌∷◌, Among, ◌≡◌, ◌≢◌, some, arith, inl, inr, lookup,
}
use token_go.Relay.Registry.{
  Registry, register, remove_if_match, cleanup, lookup_conn, new_registry, IsValid,
}
use token_go.Relay.Registry.Lookups.{register_lem, remove_if_match_lem, update_heartbeat_lem}
use token_go.Relay.Registry.Cleanup.{cleanup_lem}
use token_go.Relay.Registry.Invariant.{
  register-IsValid, remove_if_match-IsValid, update_heartbeat-IsValid, cleanup-IsValid,
  new_registry-IsValid,
}
use token_go.Relay.Server.{end_session}
use token_go.Relay.Sessions.{
  Relay, start, leave, Step, admitted, heartbeat, swept, unreachable, left, Reach, started, after,
}

-- The connections of the sessions are below `n`, and each stands once.
abbrev pub Numbered : ℕ → List (ℕ × Bytes) → Type 0
Numbered n [] = Unit {0}
Numbered n ((c, h) ∷ rest) = (c < n) × Numbered c rest

pub record IsLive (s : Relay) : Type 0 where
  pub valid : IsValid s.registry
  pub numbered : Numbered s.next_conn s.sessions
  pub live :
      (hash : Bytes) (conn : ℕ)
      → lookup_conn hash s.registry ≡ some conn
      → Among (conn, hash) s.sessions

Numbered-mono : (m n : ℕ) (xs : List (ℕ × Bytes)) → m ≤ n → Numbered m xs → Numbered n xs
Numbered-mono m n [] h v = tt
Numbered-mono m n ((c, k) ∷ xs) h v = (omega arith, v.1)

leave-Numbered : (conn n : ℕ) (xs : List (ℕ × Bytes)) → Numbered n xs → Numbered n (leave conn xs)
unfolding leave
leave-Numbered conn n [] v = tt
leave-Numbered conn n ((c, h) ∷ xs) v =
    ground (arith, leave-Numbered conn c xs v.1, Numbered-mono c n (leave conn xs))

lt_of_Among :
    (n conn : ℕ) (hash : Bytes) (xs : List (ℕ × Bytes))
    → Numbered n xs
    → Among (conn, hash) xs
    → conn < n
lt_of_Among n conn hash [] v m = absurd m
lt_of_Among n conn hash ((c, h) ∷ xs) v (inl e) = ground arith
lt_of_Among n conn hash ((c, h) ∷ xs) v (inr m) = omega (arith, lt_of_Among c conn hash xs v.1 m)

-- A connection has one hash.
one_hash :
    (n conn : ℕ) (h k : Bytes) (xs : List (ℕ × Bytes))
    → Numbered n xs
    → Among (conn, h) xs
    → Among (conn, k) xs
    → h ≡ k
one_hash n conn h k [] v a b = absurd a
one_hash n conn h k ((c, i) ∷ xs) v (inl e) (inl f) = cc
one_hash n conn h k ((c, i) ∷ xs) v (inl e) (inr b) =
    absurd (ground (arith, lt_of_Among c conn k xs v.1 b))
one_hash n conn h k ((c, i) ∷ xs) v (inr a) (inl f) =
    absurd (ground (arith, lt_of_Among c conn h xs v.1 a))
one_hash n conn h k ((c, i) ∷ xs) v (inr a) (inr b) = one_hash c conn h k xs v.1 a b

Among-leave :
    (gone conn : ℕ) (hash : Bytes) (xs : List (ℕ × Bytes))
    → conn ≢ gone
    → Among (conn, hash) xs
    → Among (conn, hash) (leave gone xs)
unfolding leave
Among-leave gone conn hash [] other m = absurd m
Among-leave gone conn hash ((c, h) ∷ xs) other m =
    ground (arith, Among-leave gone conn hash xs other)

start-IsLive : IsLive start
unfolding start lookup_conn new_registry lookup
start-IsLive = record { valid = new_registry-IsValid; numbered = tt; live = λ hash conn e. cc }

module _ (s : Relay) (v : IsLive s) where
  admitted-live :
      (now : ℕ) (hash key_config k : Bytes) (conn : ℕ)
      → lookup_conn k (register now hash s.next_conn key_config s.registry).0 ≡ some conn
      → Among (conn, k) ((s.next_conn, hash) ∷ s.sessions)
  admitted-live now hash key_config k conn e =
      ground (arith, register_lem now hash k s.next_conn key_config s.registry, v.live k conn)

  swept-live :
      (now timeout : ℕ) (k : Bytes) (conn : ℕ)
      → lookup_conn k (cleanup now timeout s.registry).0 ≡ some conn
      → lookup_conn k s.registry ≡ some conn
  unfolding lookup_conn
  swept-live now timeout k conn e = ground (arith, cleanup_lem now timeout s.registry k v.valid)

  left-live :
      (gone : ℕ) (hash k : Bytes) (conn : ℕ)
      → Among (gone, hash) s.sessions
      → lookup_conn k (end_session hash gone s.registry).0 ≡ some conn
      → Among (conn, k) (leave gone s.sessions)
  unfolding end_session
  left-live gone hash k conn m e = ground (
    arith,
    remove_if_match_lem hash k gone s.registry,
    v.live k conn,
    one_hash s.next_conn gone hash k s.sessions v.numbered m,
    Among-leave gone conn k s.sessions,
  )

Step-IsLive : {s t : Relay} → Step s t → IsLive s → IsLive t
Step-IsLive (admitted s now hash key_config) v = record {
  valid = register-IsValid now hash s.next_conn key_config s.registry v.valid;
  numbered = (omega arith, v.numbered);
  live = admitted-live s v now hash key_config;
}
Step-IsLive (heartbeat s now conn hash m) v = record {
  valid = update_heartbeat-IsValid now hash s.registry v.valid;
  numbered = v.numbered;
  live = λ k c e. v.live k c (ground (arith, update_heartbeat_lem now hash k s.registry));
}
Step-IsLive (swept s now timeout) v = record {
  valid = cleanup-IsValid now timeout s.registry v.valid;
  numbered = v.numbered;
  live = λ k c e. v.live k c (swept-live s v now timeout k c e);
}
Step-IsLive (unreachable s hash conn) v = record {
  valid = remove_if_match-IsValid hash conn s.registry v.valid;
  numbered = v.numbered;
  live = λ k c e. v.live k c (ground (arith, remove_if_match_lem hash k conn s.registry));
}
Step-IsLive (left s conn hash m) v = record {
  valid = (unfold end_session in remove_if_match-IsValid hash conn s.registry v.valid);
  numbered = leave-Numbered conn s.next_conn s.sessions v.numbered;
  live = λ k c e. left-live s v conn hash k c m e;
}

Reach-IsLive : {s : Relay} → Reach s → IsLive s
Reach-IsLive started = start-IsLive
Reach-IsLive (after r st) = Step-IsLive st (Reach-IsLive r)

-- In every state that the Relay can reach, by any interleaving of registrations, heartbeats,
-- clean-ups, failed requests and ended sessions, a hash leads only to a connection whose handler is
-- still running and which registered under that hash.
pub registered_is_live :
    {s : Relay} (hash : Bytes) (conn : ℕ)
    → Reach s
    → lookup_conn hash s.registry ≡ some conn
    → Among (conn, hash) s.sessions
registered_is_live hash conn r e = (Reach-IsLive r).live hash conn e

-- An Exit that registers again over a new connection stays registered when the old connection's
-- handler ends, or when a request that still holds the old connection fails on it.
pub newer_survives :
    (now : ℕ) (hash key_config : Bytes) (old new : ℕ) (r : Registry)
    → old ≢ new
    → (lookup_conn hash (end_session hash old (register now hash new key_config r).0).0 ≡ some new)
      × (lookup_conn hash (remove_if_match hash old (register now hash new key_config r).0).0
          ≡ some new)
unfolding end_session
newer_survives now hash key_config old new r h = ground (
  arith,
  register_lem now hash hash new key_config r,
  remove_if_match_lem hash hash old (register now hash new key_config r).0,
)
