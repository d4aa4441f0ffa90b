-- ===== src/Dht/Provider/Refresh.antt =====
-- `refreshLoop` of internal/dht/provider.go, as its ticks.
use token_go.Base.{
  ℕ, suc, ◌++◌, Bytes, List, [], ◌∷◌, map, Option, some, Bool, true, false, All, ◌≡◌, refl, arith,
}
use token_go.Dht.Provider.{Provider, refresh_tick, retry_tick}

-- A tick, the size of the routing table, and what `Provide` answers if the tick calls it.
pub data Tick : Type 0 where
  ticker : (provided : Bool) → Tick
  retry_ticker : (table_size : ℕ) (provided : Bool) → Tick

abbrev pub one_tick : Option Bytes → Provider → Bool → Tick → Bool × Bool
one_tick cid p announced (Tick.ticker provided) = refresh_tick cid provided p announced
one_tick cid p announced (Tick.retry_ticker table_size provided) =
    retry_tick cid table_size provided announced

-- For each tick, whether it calls `Provide`.
abbrev pub refresh_loop : Option Bytes → Provider → Bool → List Tick → List Bool
refresh_loop cid p announced [] = []
refresh_loop cid p announced (t ∷ ts) =
    let (announced', calls) = one_tick cid p announced t in calls ∷ refresh_loop cid p announced' ts

abbrev IsIdle : Tick → Type 0
IsIdle (Tick.ticker provided) = ⊥
IsIdle (Tick.retry_ticker table_size provided) = table_size ≡ 0

abbrev IsRetry : Tick → Type 0
IsRetry (Tick.ticker provided) = ⊥
IsRetry (Tick.retry_ticker table_size provided) = Unit {0}

abbrev no_call : Tick → Bool
no_call t = false

announced_once :
    (c : Bytes) (p : Provider) (ts : List Tick)
    → All IsRetry ts
    → refresh_loop (some c) p true ts ≡ map no_call ts
unfolding retry_tick
announced_once c p [] h = refl
announced_once c p (Tick.ticker provided ∷ ts) h = absurd h.0
announced_once c p (Tick.retry_ticker size provided ∷ ts) h = rw (announced_once c p ts h.1) refl

-- Between two long ticks, a seed node calls `Provide` at the first short tick at which its routing
-- table is not empty, not before; if that succeeds, it does not call it at a short tick again.
pub refresh_loop_lem :
    (c : Bytes) (p : Provider) (idle rest : List Tick) (size : ℕ)
    → All IsIdle idle
    → All IsRetry rest
    → refresh_loop (some c) p false (idle ++ Tick.retry_ticker (suc size) true ∷ rest)
      ≡ map no_call idle ++ true ∷ map no_call rest
unfolding retry_tick
refresh_loop_lem c p [] rest size hi hr = ground (arith, announced_once c p rest hr)
refresh_loop_lem c p (Tick.ticker provided ∷ idle) rest size hi hr = absurd hi.0
refresh_loop_lem c p (Tick.retry_ticker n provided ∷ idle) rest size hi hr =
    ground (arith, hi.0, refresh_loop_lem c p idle rest size hi.1 hr)
