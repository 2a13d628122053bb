-- ===== src/Prelude/Maps.antt =====
-- Go's `map` with keys that are numbers: an association list, its laws in the form that every key
-- can be looked up after an update.
use Prim.Native.Nat.{ℕ}
use mathlib.Core.Path.{◌≡◌}
use mathlib.Core.List.{List, [], ◌∷◌}
use mathlib.Core.Option.{Option, none, some}
use native.Mathlib.Omega.{arith}
use pixel_beetle.Prelude.Tests.{◌==◌, if◌then◌else◌}

abbrev pub Table {ℓ} : Type ℓ → Type ℓ
Table V = List (ℕ × V)

module _ {ℓ} {V : Type ℓ} where
  unfoldable pub lookup : ℕ → Table V → Option V
  lookup k [] = none
  lookup k ((j, v) ∷ t) = if j == k then some v else lookup k t

  -- `delete(t, k)`
  unfoldable pub erase : ℕ → Table V → Table V
  erase k [] = []
  erase k ((j, v) ∷ t) = let rest = erase k t in if j == k then rest else (j, v) ∷ rest

  -- `t[k] = v`
  unfoldable pub insert : ℕ → V → Table V → Table V
  unfolding erase
  insert k v t = (k, v) ∷ erase k t

  pub lookup-erase :
      (k j : ℕ) (t : Table V) → lookup j (erase k t) ≡ (if k == j then none else lookup j t)
  unfolding lookup erase
  lookup-erase k j [] = ground arith
  lookup-erase k j ((i, v) ∷ t) = ground (arith, lookup-erase k j t)

  pub lookup-insert :
      (k j : ℕ) (v : V) (t : Table V)
      → lookup j (insert k v t) ≡ (if k == j then some v else lookup j t)
  unfolding lookup insert
  lookup-insert k j v t = ground (arith, lookup-erase k j t)

pub ruleset table_laws = (arith, lookup-insert, lookup-erase)
