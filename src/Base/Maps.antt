-- ===== src/Base/Maps.antt =====
-- Go's `map[string]V`: an association list in the order of a range loop, which Go leaves open.
use mathlib.Core.Path.{◌≡◌, refl}
use mathlib.Core.Logic.{ite}
use mathlib.Core.Option.{Option, none, some}
use mathlib.Core.List.{List, [], ◌∷◌}
use native.Mathlib.Omega.{arith}
use Prim.Native.Nat.{◌+◌}
use token_go.Base.Lists.{length}
use token_go.Base.Words.{Bytes, bytes_discrete}

abbrev pub Map {ℓ} : Type ℓ → Type ℓ
Map V = List (Bytes × V)

module _ {ℓ} {V : Type ℓ} where
  -- `v, ok := m[k]`
  unfoldable pub lookup : Bytes → Map V → Option V
  unfolding bytes_discrete
  lookup k [] = none
  lookup k ((j, v) ∷ m) = ite (bytes_discrete j k) (some v) (lookup k m)

  -- `m[k] = v`
  unfoldable pub insert : Bytes → V → Map V → Map V
  unfolding bytes_discrete
  insert k v [] = (k, v) ∷ []
  insert k v ((j, w) ∷ m) = ite (bytes_discrete j k) ((k, v) ∷ m) ((j, w) ∷ insert k v m)

  -- `delete(m, k)`
  unfoldable pub delete : Bytes → Map V → Map V
  unfolding bytes_discrete
  delete k [] = []
  delete k ((j, w) ∷ m) = ite (bytes_discrete j k) (delete k m) ((j, w) ∷ delete k m)

  abbrev pub lookup_or : V → Bytes → Map V → V
  lookup_or d k m = elim (lookup k m) [ some v ↦ v | none ↦ d ]

  -- No key stands twice.
  abbrev pub Distinct : Map V → Type ℓ
  Distinct [] = Unit {ℓ}
  Distinct ((k, v) ∷ m) = (lookup k m ≡ none) × Distinct m

module _ {ℓ} {V : Type ℓ} where
  pub lookup-insert :
      (k j : Bytes) (v : V) (m : Map V)
      → lookup j (insert k v m) ≡ ite (bytes_discrete k j) (some v) (lookup j m)
  unfolding lookup insert
  lookup-insert k j v [] = refl
  lookup-insert k j v ((i, w) ∷ m) = ground (arith, lookup-insert k j v m)

  pub lookup-delete :
      (k j : Bytes) (m : Map V) → lookup j (delete k m) ≡ ite (bytes_discrete k j) none (lookup j m)
  unfolding lookup delete
  lookup-delete k j [] = ground arith
  lookup-delete k j ((i, w) ∷ m) = ground (arith, lookup-delete k j m)

  pub insert-Distinct : (k : Bytes) (v : V) (m : Map V) → Distinct m → Distinct (insert k v m)
  unfolding insert
  insert-Distinct k v [] d = (unfold lookup in refl, tt)
  insert-Distinct k v ((i, w) ∷ m) d =
      ground (arith, lookup-insert k i v m, insert-Distinct k v m d.1)

  pub delete-Distinct : (k : Bytes) (m : Map V) → Distinct m → Distinct (delete k m)
  unfolding delete
  delete-Distinct k [] d = tt
  delete-Distinct k ((i, w) ∷ m) d = ground (arith, lookup-delete k i m, delete-Distinct k m d.1)

  -- Deleting a key that is not there changes nothing.
  pub delete-none : (k : Bytes) (m : Map V) → lookup k m ≡ none → delete k m ≡ m
  unfolding lookup delete
  delete-none k [] h = refl
  delete-none k ((i, w) ∷ m) h = ground (arith, delete-none k m)

  pub length-insert :
      (k : Bytes) (v : V) (m : Map V)
      → length (insert k v m) ≡ elim (lookup k m) [ none ↦ length m + 1 | some w ↦ length m ]
  unfolding lookup insert
  length-insert k v [] = refl
  length-insert k v ((i, w) ∷ m) = ground (arith, length-insert k v m)

  pub length-delete :
      (k : Bytes) (m : Map V)
      → Distinct m
      → length m
        ≡ elim (lookup k m) [ none ↦ length (delete k m) | some w ↦ length (delete k m) + 1 ]
  unfolding lookup delete
  length-delete k [] d = refl
  length-delete k ((i, w) ∷ m) d = ground (arith, length-delete k m d.1, delete-none k m)
