-- ===== src/LoadBalancer/Samples.antt =====
-- A Float of natural numbers, for theorems at concrete inputs.
use token_go.Base.{ℕ, ◌+◌, ◌*◌, leb, refl, arith, if◌then◌else◌}
use token_go.LoadBalancer.Weighted.{Float}
use token_go.LoadBalancer.WeightedChoice.{ZeroLaws}

abbrev pub numbers : Float
numbers = record {
  F = ℕ;
  zero = 0;
  one = 60;
  tenth = 6;
  half = 2;
  ten = 600;
  growth = 2;
  add = λ a b. a + b;
  mul = λ a b. a * b;
  div_by = λ a n. a;
  le = leb;
  min = λ a b. if leb a b then a else b;
  max = λ a b. if leb a b then b else a;
}

pub numbers-ZeroLaws : ZeroLaws numbers
numbers-ZeroLaws = record { add-zero = λ x. omega arith; zero-le-zero = refl }
