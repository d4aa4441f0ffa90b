-- ===== src/Exit/Tunnel/Life.antt =====
-- `Start`, `reconnectLoop` and `Stop` of internal/exit/tunnel.go, as the steps of the goroutine in
-- `Start` among those of the callers of `Stop`, of the goroutines it starts and of the network. The
-- address and the id of the Relay are left out: behind the dial they are only logged.
pub mod Closing
pub mod Invariant
pub mod Open
pub mod Registers
pub mod Stopping
mod Runs
use token_go.Base.{
  ℕ, suc, ◌*◌, List, [], ◌∷◌, ◌++◌, Option, none, some, Bool, true, false, not, ◌≡◌,
}
use token_go.Net.Opened.{close_one, close_stored, is_open, listed}
use token_go.Exit.Tunnel.{second, next_backoff}
use token_go.Exit.Tunnel.Retries.{max_backoff}

-- The loop of `Start` for the first connection, and the inner loop of `reconnectLoop`.
pub data Round : Type 0 where
  first again : Round

-- Where the goroutine stands.
pub data Phase : Type 0 where
  -- In front of the `select` with a `default`.
  checking : (round : Round) (backoff : ℕ) → Phase
  -- In the `select` on `time.After(backoff)`.
  waiting : (round : Round) (backoff : ℕ) → Phase
  -- In `selectRelay`, or in `quic.DialAddr`.
  dialing : (round : Round) (backoff : ℕ) → Phase
  -- In `probeRelay`, in `selectRelay`, behind the dial of a connection that measures a round trip.
  probing : (round : Round) (backoff conn : ℕ) → Phase
  -- In `OpenStreamSync` on the new connection.
  opening : (round : Round) (backoff conn : ℕ) → Phase
  -- Behind it: the message is written, and the acknowledgement read.
  registering : (round : Round) (backoff conn : ℕ) → Phase
  -- The connection is stored, and its goroutines are not started.
  stored : (round : Round) → Phase
  -- At the head of `reconnectLoop`, and in its `select` on the connection's context.
  watching : Phase
  -- `Start` has returned, with an error or without.
  returned : (error : Bool) → Phase

pub record Tunnel : Type 0 where
  pub phase : Phase
  -- `t.conn`
  pub conn : Option ℕ
  -- What has been dialed and not closed, by either side.
  pub opened : List ℕ
  pub next : ℕ
  -- `t.ctx` is cancelled.
  pub stopped : Bool
  -- `t.ready` is closed.
  pub ready : Bool
  -- The connections for which `heartbeatLoop` and `acceptStreams` run: `connCtx` is not cancelled.
  pub serving : List ℕ

-- `Start` is called on a new tunnel.
abbrev pub initial : Tunnel
initial = record {
  phase = checking Round.first (3 * second);
  conn = none;
  opened = [];
  next = 0;
  stopped = false;
  ready = false;
  serving = [];
}

-- Behind the check that the tunnel is not stopped.
abbrev pub after_check : Round → ℕ → Phase
after_check Round.first backoff = dialing Round.first backoff
after_check Round.again backoff = waiting Round.again backoff

-- Behind the wait.
unfoldable pub after_wait : Round → ℕ → Phase
after_wait Round.first backoff = checking Round.first (next_backoff backoff max_backoff)
after_wait Round.again backoff = dialing Round.again backoff

-- Behind an error of `selectRelay` or of `connectAndRegister`.
unfoldable pub after_failure : Round → ℕ → Phase
after_failure Round.first backoff = waiting Round.first backoff
after_failure Round.again backoff = checking Round.again (next_backoff backoff max_backoff)

-- Whether the return from a round's loop is the error of `Start`.
abbrev pub fails : Round → Bool
fails Round.first = true
fails Round.again = false

-- `t.readyOnce.Do`, in `Start`.
abbrev pub ready_after : Round → Bool → Bool
ready_after Round.first ready = true
ready_after Round.again ready = ready

-- `conn.Context()` is done. The loop does not wait where there is no connection.
unfoldable pub is_over : Option ℕ → List ℕ → Bool
unfolding is_open
is_over none opened = true
is_over (some c) opened = not (is_open c opened)

-- A step of the goroutine in `Start`. With the context cancelled a dial and `OpenStreamSync` fail.
pub data Own (s : Tunnel) : Tunnel → Type 0 where
  halt :
      {r : Round} {b : ℕ}
      → s.phase ≡ checking r b
      → s.stopped ≡ true
      → Own s (record s { phase = returned (fails r) })
  try :
      {r : Round} {b : ℕ}
      → s.phase ≡ checking r b
      → s.stopped ≡ false
      → Own s (record s { phase = after_check r b })
  elapse : {r : Round} {b : ℕ} → s.phase ≡ waiting r b → Own s (record s { phase = after_wait r b })
  wake :
      {r : Round} {b : ℕ}
      → s.phase ≡ waiting r b
      → s.stopped ≡ true
      → Own s (record s { phase = returned (fails r) })
  fail :
      {r : Round} {b : ℕ} → s.phase ≡ dialing r b → Own s (record s { phase = after_failure r b })
  dial :
      {r : Round} {b : ℕ}
      → s.phase ≡ dialing r b
      → s.stopped ≡ false
      → Own s
          (record s { phase = opening r b s.next; opened = s.next ∷ s.opened; next = suc s.next })
  -- `probeRelay` dials a connection, and closes it at once.
  probe :
      {r : Round} {b : ℕ}
      → s.phase ≡ dialing r b
      → s.stopped ≡ false
      → Own s
          (record s { phase = probing r b s.next; opened = s.next ∷ s.opened; next = suc s.next })
  probed :
      {r : Round} {b c : ℕ}
      → s.phase ≡ probing r b c
      → Own s (record s { phase = dialing r b; opened = close_one c s.opened })
  not_opened :
      {r : Round} {b c : ℕ}
      → s.phase ≡ opening r b c
      → Own s (record s { phase = after_failure r b; opened = close_one c s.opened })
  open_stream :
      {r : Round} {b c : ℕ}
      → s.phase ≡ opening r b c
      → s.stopped ≡ false
      → Own s (record s { phase = registering r b c })
  refused :
      {r : Round} {b c : ℕ}
      → s.phase ≡ registering r b c
      → Own s (record s { phase = after_failure r b; opened = close_one c s.opened })
  acknowledged :
      {r : Round} {b c : ℕ}
      → s.phase ≡ registering r b c
      → Own s (record s { phase = stored r; conn = some c })
  serve :
      {r : Round}
      → s.phase ≡ stored r
      → Own s (record s {
        phase = watching;
        ready = ready_after r s.ready;
        serving = listed s.conn ++ s.serving;
      })
  disconnected :
      s.phase ≡ watching
      → is_over s.conn s.opened ≡ true
      → Own s (record s { phase = checking Round.again second })
  unwatch : s.phase ≡ watching → s.stopped ≡ true → Own s (record s { phase = returned false })

-- A step of another goroutine.
pub data Other (s : Tunnel) : Tunnel → Type 0 where
  -- `Stop`: the context, and then the connection that is stored.
  cancel : Other s (record s { stopped = true })
  close : s.stopped ≡ true → Other s (record s { opened = close_stored s.conn s.opened })
  -- The network ends a connection.
  lose : (c : ℕ) → Other s (record s { opened = close_one c s.opened })
  -- The goroutine that waits for the end of a connection, or of the tunnel, cancels `connCtx`.
  unserve :
      (c : ℕ) → is_open c s.opened ≡ false → Other s (record s { serving = close_one c s.serving })
  unserve_stopped :
      (c : ℕ) → s.stopped ≡ true → Other s (record s { serving = close_one c s.serving })

-- A run from one state, and how many of its steps are the goroutine's own.
pub data Run (s : Tunnel) : Tunnel → ℕ → Type 0 where
  here : Run s s 0
  own : {t u : Tunnel} {n : ℕ} → Run s t n → Own t u → Run s u (suc n)
  other : {t u : Tunnel} {n : ℕ} → Run s t n → Other t u → Run s u n
