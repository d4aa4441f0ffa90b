-- ===== src/Net/Opened.antt =====
-- The QUIC connections that a node has opened and that have not ended, by their numbers.
use token_go.Base.{
  ℕ, List, [], ◌∷◌, Option, none, some, Bool, true, false, ite, ℕ_discrete, All, ◌<◌, ◌≡◌, refl,
  arith,
}

-- `CloseWithError` on a connection, or its end by the network.
unfoldable pub close_one : ℕ → List ℕ → List ℕ
unfolding ℕ_discrete
close_one c [] = []
close_one c (d ∷ ds) = let rest = close_one c ds in ite (ℕ_discrete d c) rest (d ∷ rest)

unfoldable pub close_stored : Option ℕ → List ℕ → List ℕ
unfolding close_one
close_stored none opened = opened
close_stored (some c) opened = close_one c opened

unfoldable pub is_open : ℕ → List ℕ → Bool
unfolding ℕ_discrete
is_open c [] = false
is_open c (d ∷ ds) = let rest = is_open c ds in ite (ℕ_discrete d c) true rest

abbrev pub listed : Option ℕ → List ℕ
listed none = []
listed (some c) = c ∷ []

pub close_listed : (conn : Option ℕ) → close_stored conn (listed conn) ≡ []
unfolding close_stored close_one
close_listed none = refl
close_listed (some c) = ground arith

pub is_open-one : (c : ℕ) → is_open c (c ∷ []) ≡ true
unfolding is_open
is_open-one c = ground arith

pub All-close_one :
    (n c : ℕ) (ds : List ℕ) → All (λ d. d < n) ds → All (λ d. d < n) (close_one c ds)
unfolding close_one
All-close_one n c [] h = tt
All-close_one n c (d ∷ ds) h = ground (arith, All-close_one n c ds h.1)
