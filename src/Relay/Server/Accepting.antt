-- ===== src/Relay/Server/Accepting.antt =====
-- `Start` and `Stop` of internal/relay/quic_server.go: the loop that accepts connections, and the
-- goroutines that it starts and waits for. What those do is in Relay.Server.
pub mod Drained
mod Runs
use token_go.Base.{ℕ, suc, List, [], ◌∷◌, Bool, true, false, ◌≡◌, ◌≢◌}
use token_go.Net.Opened.{close_one}

pub data Listener : Type 0 where
  -- `nil`
  unbound : Listener
  bound : Listener
  closed : Listener

-- Where the goroutine in `Start` stands.
pub data Phase : Type 0 where
  binding : Phase
  -- In front of the `select`.
  checking : Phase
  -- In `listener.Accept`.
  accepting : Phase
  -- Behind it, in front of `s.wg.Add(1)`.
  adding : (conn : ℕ) → Phase
  -- In `s.wg.Wait()`.
  draining : Phase
  -- With an error, or without.
  returned : (error : Bool) → Phase

pub record Server : Type 0 where
  pub phase : Phase
  pub listener : Listener
  -- The context is cancelled.
  pub cancelled : Bool
  -- `s.ready` is closed.
  pub ready : Bool
  -- What `s.wg` counts: the connections whose handler runs.
  pub handlers : List ℕ
  pub next : ℕ

abbrev pub new_server : Server
new_server = record {
  phase = binding;
  listener = unbound;
  cancelled = false;
  ready = false;
  handlers = [];
  next = 0;
}

-- A step of the goroutine in `Start`.
pub data Own (s : Server) : Server → Type 0 where
  not_bound : s.phase ≡ binding → Own s (record s { phase = returned true })
  bind : s.phase ≡ binding → Own s (record s { phase = checking; listener = bound; ready = true })
  halt : s.phase ≡ checking → s.cancelled ≡ true → Own s (record s { phase = draining })
  go_on : s.phase ≡ checking → s.cancelled ≡ false → Own s (record s { phase = accepting })
  accept :
      s.phase ≡ accepting
      → s.listener ≡ bound
      → Own s (record s { phase = adding s.next; next = suc s.next })
  -- `Accept` fails, and the context is looked at.
  give_up : s.phase ≡ accepting → s.cancelled ≡ true → Own s (record s { phase = draining })
  retry : s.phase ≡ accepting → s.cancelled ≡ false → Own s (record s { phase = checking })
  add :
      {c : ℕ}
      → s.phase ≡ adding c
      → Own s (record s { phase = checking; handlers = c ∷ s.handlers })
  drained : s.phase ≡ draining → s.handlers ≡ [] → Own s (record s { phase = returned false })

-- A step of another goroutine.
pub data Other (s : Server) : Server → Type 0 where
  -- In front of `Stop`, the owner of the server cancels its context.
  cancel : Other s (record s { cancelled = true })
  -- The first part of `Stop`: without a listener it does nothing.
  close : s.listener ≢ unbound → Other s (record s { listener = closed })
  -- A handler ends.
  finish : (c : ℕ) → Other s (record s { handlers = close_one c s.handlers })

-- Behind `listener.Close` the second part of `Stop` waits for the handlers; then it returns.
abbrev pub Stops : Server → Type 0
Stops s = (s.listener ≡ closed) × (s.handlers ≡ [])

-- A run, and how many of its steps are of `Start`.
pub data Run (s : Server) : Server → ℕ → Type 0 where
  here : Run s s 0
  own : {t u : Server} {n : ℕ} → Run s t n → Own t u → Run s u (suc n)
  other : {t u : Server} {n : ℕ} → Run s t n → Other t u → Run s u n
