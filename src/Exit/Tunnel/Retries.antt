-- ===== src/Exit/Tunnel/Retries.antt =====
-- The waits of `Start` and `reconnectLoop` of internal/exit/tunnel.go. An attempt selects a Relay,
-- connects and registers: `some conn`, or `none` for any error. The list of attempts is what the
-- network makes of them, one after the other; at its end the tunnel is stopped.
use native.Mathlib.Nat.{mul_assoc, pow-succ'}
use token_go.Base.{
  ℕ, zero, suc, ◌*◌, ◌^◌, ◌<◌, min, List, [], ◌∷◌, ◌++◌, length, get_elem?, Option, none, some, All,
  ◌≡◌, refl, arith, ap, sym, ◌∙◌,
}
use token_go.Exit.Tunnel.{second, next_backoff}

abbrev pub max_backoff : ℕ
max_backoff = 60 * second

-- The loop of `Start`: a failed attempt is followed by a wait. The waits, and the connection.
unfoldable pub start_loop : ℕ → List (Option ℕ) → List ℕ × Option ℕ
unfolding next_backoff
start_loop backoff [] = ([], none)
start_loop backoff (some conn ∷ attempts) = ([], some conn)
start_loop backoff (none ∷ attempts) =
    let (waits, conn) = start_loop (next_backoff backoff max_backoff) attempts in
    (backoff ∷ waits, conn)

-- The inner loop of `reconnectLoop`: each attempt comes after a wait.
unfoldable pub reconnect_loop : ℕ → List (Option ℕ) → List ℕ × Option ℕ
unfolding next_backoff
reconnect_loop backoff [] = (backoff ∷ [], none)
reconnect_loop backoff (some conn ∷ attempts) = (backoff ∷ [], some conn)
reconnect_loop backoff (none ∷ attempts) =
    let (waits, conn) = reconnect_loop (next_backoff backoff max_backoff) attempts in
    (backoff ∷ waits, conn)

unfoldable pub start_attempts : List (Option ℕ) → List ℕ × Option ℕ
unfolding start_loop
start_attempts attempts = start_loop (3 * second) attempts

unfoldable pub reconnect_attempts : List (Option ℕ) → List ℕ × Option ℕ
unfolding reconnect_loop
reconnect_attempts attempts = reconnect_loop second attempts

-- The waits of `n` attempts.
abbrev pub schedule : ℕ → ℕ → List ℕ
schedule backoff zero = []
schedule backoff (suc n) = backoff ∷ schedule (next_backoff backoff max_backoff) n

length-schedule : (backoff n : ℕ) → length (schedule backoff n) ≡ n
length-schedule backoff zero = refl
length-schedule backoff (suc n) = ap suc (length-schedule (next_backoff backoff max_backoff) n)

schedule_at :
    (start n k : ℕ)
    → k < n
    → get_elem? (schedule (min start max_backoff) n) k ≡ some (min (start * 2 ^ k) max_backoff)
unfolding next_backoff
schedule_at start zero k h = absurd (omega arith)
schedule_at start (suc n) zero h = ap some (omega arith)
schedule_at start (suc n) (suc k) h =
    ap (λ b. get_elem? (schedule b n) k) (capped start)
    ∙ schedule_at (start * 2) n k (omega arith)
    ∙ ap (λ t. some (min t max_backoff)) (doubled start k)
  where
    capped : (s : ℕ) → min (min s max_backoff * 2) max_backoff ≡ min (s * 2) max_backoff
    capped s = omega arith

    doubled : (s k : ℕ) → s * 2 * 2 ^ k ≡ s * 2 ^ suc k
    doubled s k = mul_assoc s 2 (2 ^ k) ∙ ap (λ t. s * t) (sym (pow-succ' 2 k))

start_loop_waits :
    (backoff : ℕ) (failed : List (Option ℕ)) (conn : ℕ) (rest : List (Option ℕ))
    → All (λ a. a ≡ none) failed
    → start_loop backoff (failed ++ some conn ∷ rest)
      ≡ (schedule backoff (length failed), some conn)
unfolding start_loop
start_loop_waits backoff [] conn rest h = refl
start_loop_waits backoff (a ∷ failed) conn rest h =
    ground (arith, start_loop_waits (next_backoff backoff max_backoff) failed conn rest h.1)

reconnect_loop_waits :
    (backoff : ℕ) (failed : List (Option ℕ)) (conn : ℕ) (rest : List (Option ℕ))
    → All (λ a. a ≡ none) failed
    → reconnect_loop backoff (failed ++ some conn ∷ rest)
      ≡ (schedule backoff (suc (length failed)), some conn)
unfolding reconnect_loop
reconnect_loop_waits backoff [] conn rest h = refl
reconnect_loop_waits backoff (a ∷ failed) conn rest h =
    ground (arith, reconnect_loop_waits (next_backoff backoff max_backoff) failed conn rest h.1)

-- There are `n` waits, and the k-th is `start` doubled `k` times, at most the maximum.
abbrev pub BacksOff : ℕ → ℕ → List ℕ → Type 0
BacksOff start n waits =
    (length waits ≡ n)
    × ((k : ℕ) → k < n → get_elem? waits k ≡ some (min (start * 2 ^ k) max_backoff))

-- However often an attempt fails, the tunnel tries again, and connects at the first attempt that
-- succeeds. The first connection is tried at once, and waits behind its failures: 3 s behind the
-- first, and each time twice as long. A reconnection waits in front of its attempts: 1 s in front of
-- the first, and each time twice as long. Either waits for 60 s at most.
pub attempts_lem :
    (failed : List (Option ℕ)) (conn : ℕ) (rest : List (Option ℕ))
    → All (λ a. a ≡ none) failed
    → ((waits : List ℕ) × (start_attempts (failed ++ some conn ∷ rest) ≡ (waits, some conn))
        × BacksOff (3 * second) (length failed) waits)
      × ((waits : List ℕ) × (reconnect_attempts (failed ++ some conn ∷ rest) ≡ (waits, some conn))
          × BacksOff second (suc (length failed)) waits)
unfolding start_attempts reconnect_attempts
attempts_lem failed conn rest h =
    let n : ℕ = length failed in
    (
      (
        schedule (3 * second) n,
        start_loop_waits (3 * second) failed conn rest h,
        (length-schedule (3 * second) n, λ k lt. schedule_at (3 * second) n k lt),
      ),
      (
        schedule second (suc n),
        reconnect_loop_waits second failed conn rest h,
        (length-schedule second (suc n), λ k lt. schedule_at second (suc n) k lt),
      ),
    )
