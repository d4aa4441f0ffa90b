-- ===== src/Relay/Server/ClientStreams.antt =====
-- `handleClientConnection` of internal/relay/quic_server.go: the loop that accepts the streams of a
-- Client, and the goroutines that handle them. What those do is `handle_stream`.
use token_go.Base.{ℕ, suc, ◌+◌, Bool, true, false, ◌≡◌, refl, arith}

-- Where the handler of a Client's connection stands.
pub data Stage : Type 0 where
  -- In `AcceptStream`.
  serving : Stage
  -- In the deferred `streamWg.Wait()`, which runs before the deferred close.
  waiting : Stage
  ended : Stage

pub record ClientConn : Type 0 where
  pub stage : Stage
  -- What `streamWg` counts.
  pub streams : ℕ
  pub accepted : ℕ
  -- How many of the accepted streams have been handled.
  pub handled : ℕ
  pub closed_by_relay : Bool

abbrev pub new_client_conn : ClientConn
new_client_conn = record {
  stage = serving;
  streams = 0;
  accepted = 0;
  handled = 0;
  closed_by_relay = false;
}

-- `handleClientConnection` and the handlers of its streams. Whatever the error of `AcceptStream` is, it
-- returns.
pub data Serve (s : ClientConn) : ClientConn → Type 0 where
  stream :
      s.stage ≡ serving → Serve s (record s { streams = s.streams + 1; accepted = s.accepted + 1 })
  stop : s.stage ≡ serving → Serve s (record s { stage = waiting })
  done : {n : ℕ} → s.streams ≡ suc n → Serve s (record s { streams = n; handled = s.handled + 1 })
  shut :
      s.stage ≡ waiting
      → s.streams ≡ 0
      → Serve s (record s { stage = ended; closed_by_relay = true })

pub data Served : ClientConn → Type 0 where
  begin : Served new_client_conn
  next : {s t : ClientConn} → Served s → Serve s t → Served t

Serve-counts :
    {s t : ClientConn}
    → Serve s t
    → s.accepted ≡ s.handled + s.streams
    → t.accepted ≡ t.handled + t.streams
Serve-counts (Serve.stream p) h = omega arith
Serve-counts (Serve.stop p) h = h
Serve-counts (Serve.done e) h = omega arith
Serve-counts (Serve.shut p e) h = h

Served-counts : {s : ClientConn} → Served s → s.accepted ≡ s.handled + s.streams
Served-counts Served.begin = refl
Served-counts (Served.next run step) = Serve-counts step (Served-counts run)

abbrev IsDone : Stage → Bool → ℕ → Type 0
IsDone Stage.ended closed streams = (closed ≡ true) × (streams ≡ 0)
IsDone Stage.serving closed streams = closed ≡ false
IsDone Stage.waiting closed streams = closed ≡ false

no_more : {A : Type 0} (n m : ℕ) → n ≡ suc m → n ≡ 0 → A
no_more n m e f = absurd (omega arith)

fewer-IsDone :
    (stage : Stage) (closed : Bool) (streams n : ℕ)
    → streams ≡ suc n
    → IsDone stage closed streams
    → IsDone stage closed n
fewer-IsDone Stage.serving closed streams n e h = h
fewer-IsDone Stage.waiting closed streams n e h = h
fewer-IsDone Stage.ended closed streams n e h = no_more streams n e h.1

Serve-IsDone :
    {s t : ClientConn}
    → Serve s t
    → IsDone s.stage s.closed_by_relay s.streams
    → IsDone t.stage t.closed_by_relay t.streams
Serve-IsDone (Serve.stream p) h = rw p (rw p at h)
Serve-IsDone (Serve.stop p) h = rw p at h
Serve-IsDone {s} (Serve.done {n} e) h = fewer-IsDone s.stage s.closed_by_relay s.streams n e h
Serve-IsDone (Serve.shut p e) h = (refl, e)

Served-IsDone : {s : ClientConn} → Served s → IsDone s.stage s.closed_by_relay s.streams
Served-IsDone Served.begin = refl
Served-IsDone (Served.next run step) = Serve-IsDone step (Served-IsDone run)

closed_after :
    (stage : Stage) (closed : Bool) (streams : ℕ)
    → IsDone stage closed streams
    → closed ≡ true
    → streams ≡ 0
closed_after Stage.ended closed streams h c = h.1
closed_after Stage.serving closed streams h c = absurd (cc)
closed_after Stage.waiting closed streams h c = absurd (cc)

-- The Relay closes the connection of a Client only when it has handled each stream that it accepted.
pub closed_handled : {s : ClientConn} → Served s → s.closed_by_relay ≡ true → s.handled ≡ s.accepted
closed_handled {s} run c =
    let z : s.streams ≡ 0 =
      closed_after s.stage s.closed_by_relay s.streams (Served-IsDone run) c in
    omega (arith, Served-counts run)
