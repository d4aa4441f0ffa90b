-- ===== src/Base/Words.antt =====
-- Byte slices and Go strings: lists of numbers below 256. A string literal is its ASCII codes.
use Prim.Native.Nat.{ℕ, ◌+◌, ◌*◌, ◌/◌, ◌%◌, ◌<◌, ◌^◌}
use Prim.Native.Char.{code}
use Prim.Native.String.{String}
use mathlib.Core.Path.{◌≡◌, refl, ap₂}
use mathlib.Core.List.{List, [], ◌∷◌}
use native.Mathlib.Omega.{arith}
use native.Mathlib.Decide.{ℕ_discrete}
use token_go.Base.Lists.{All}

abbrev pub Bytes : Type 0
Bytes = List ℕ

abbrev pub IsByte : ℕ → Type 0
IsByte b = b < 256

abbrev pub AreBytes : Bytes → Type 0
AreBytes = All IsByte

abbrev pub text : String → Bytes
text String.[] = []
text (String.◌∷◌ c s) = code c ∷ text s

nil-ne-cons : (y : ℕ) (ys : Bytes) → ¬ ([] ≡ y ∷ ys)
nil-ne-cons y ys e = cc

cons-ne-nil : (x : ℕ) (xs : Bytes) → ¬ (x ∷ xs ≡ [])
cons-ne-nil x xs e = cc

head-ne : (x y : ℕ) (xs ys : Bytes) → ¬ (x ≡ y) → ¬ (x ∷ xs ≡ y ∷ ys)
head-ne x y xs ys h e = h (cc)

tail-ne : (x y : ℕ) (xs ys : Bytes) → ¬ (xs ≡ ys) → ¬ (x ∷ xs ≡ y ∷ ys)
tail-ne x y xs ys h e = h (cc)

-- Go's `==` on strings.
unfoldable pub bytes_discrete : Discrete Bytes
unfolding ℕ_discrete nil-ne-cons cons-ne-nil head-ne tail-ne
bytes_discrete [] [] = yes refl
bytes_discrete [] (y ∷ ys) = no (nil-ne-cons y ys)
bytes_discrete (x ∷ xs) [] = no (cons-ne-nil x xs)
bytes_discrete (x ∷ xs) (y ∷ ys) = elim (ℕ_discrete x y) [
  | yes p ↦ elim (bytes_discrete xs ys) [
    | yes q ↦ yes (ap₂ ◌∷◌ p q)
    | no h ↦ no (tail-ne x y xs ys h)
  ]
  | no h ↦ no (head-ne x y xs ys h)
]

-- `binary.BigEndian.PutUint16` and `PutUint32` of the number converted to the word's width.
abbrev pub put_uint16 : ℕ → Bytes
put_uint16 n = (n / 256 % 256) ∷ (n % 256) ∷ []

abbrev pub put_uint32 : ℕ → Bytes
put_uint32 n = (n / 2 ^ 24 % 256) ∷ (n / 2 ^ 16 % 256) ∷ (n / 256 % 256) ∷ (n % 256) ∷ []

-- `binary.BigEndian.Uint16` and `Uint32`; on fewer bytes Go panics, and the callers check first.
abbrev pub uint16 : Bytes → ℕ
uint16 (a ∷ b ∷ rest) = a * 256 + b
uint16 _ = 0

abbrev pub uint32 : Bytes → ℕ
uint32 (a ∷ b ∷ c ∷ d ∷ rest) = a * 2 ^ 24 + b * 2 ^ 16 + c * 256 + d
uint32 _ = 0

pub uint16-put_uint16 : (n : ℕ) → n < 2 ^ 16 → uint16 (put_uint16 n) ≡ n
uint16-put_uint16 n h = omega arith

pub uint32-put_uint32 : (n : ℕ) → n < 2 ^ 32 → uint32 (put_uint32 n) ≡ n
uint32-put_uint32 n h = omega arith

-- Reading a word and writing it back, on bytes.
pub put_uint16-uint16 :
    (a b : ℕ) → IsByte a → IsByte b → put_uint16 (uint16 (a ∷ b ∷ [])) ≡ a ∷ b ∷ []
put_uint16-uint16 a b ha hb = ground arith

pub put_uint32-uint32 :
    (a b c d : ℕ)
    → IsByte a
    → IsByte b
    → IsByte c
    → IsByte d
    → put_uint32 (uint32 (a ∷ b ∷ c ∷ d ∷ [])) ≡ a ∷ b ∷ c ∷ d ∷ []
put_uint32-uint32 a b c d ha hb hc hd = ground arith
