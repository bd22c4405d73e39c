-- ===== src/Prelude/Sums.antt =====
-- A number for each value of a map, summed up.
use Prim.Native.Nat.{ℕ, ◌+◌, ◌≤◌}
use mathlib.Core.Path.{◌≡◌}
use mathlib.Core.Option.{some}
use mathlib.Core.List.{[], ◌∷◌}
use native.Mathlib.Omega.{arith}
use htmpfs.Prelude.Map
use htmpfs.Prelude.Map.{Map, Key}

module _ {ℓ} {K V : Type ℓ} ⦃key : Key K⦄ (w : V → ℕ) where
  abbrev pub sum : Map K V → ℕ
  sum [] = 0
  sum ((k, v) ∷ m) = w v + sum m

  pub sum-erase_le : (k : K) (m : Map K V) → sum (Map.erase k m) ≤ sum m
  unfolding Map.erase
  sum-erase_le k [] = ground arith
  sum-erase_le k ((j, v) ∷ m) = ground (arith, sum-erase_le k m)

  pub sum-erase :
      (k : K) (m : Map K V) (v : V) → Map.find k m ≡ some v → sum (Map.erase k m) + w v ≤ sum m
  unfolding Map.erase Map.find
  sum-erase k [] v h = absurd (ground arith)
  sum-erase k ((j, u) ∷ m) v h = ground (arith, sum-erase k m v, sum-erase_le k m)

  pub sum-assign :
      (k : K) (v' : V) (m : Map K V) (v : V)
      → Map.find k m ≡ some v
      → sum (Map.assign k v' m) + w v ≡ sum m + w v'
  unfolding Map.assign Map.find
  sum-assign k v' [] v h = absurd (ground arith)
  sum-assign k v' ((j, u) ∷ m) v h = ground (arith, sum-assign k v' m v)

  pub sum-emplace : (k : K) (v : V) (m : Map K V) → sum (Map.emplace k v m) ≤ sum m + w v
  unfolding Map.emplace
  sum-emplace k v m = ground arith

  -- A value counts in full.
  pub sum-find : (k : K) (m : Map K V) (v : V) → Map.find k m ≡ some v → w v ≤ sum m
  unfolding Map.find
  sum-find k [] v h = absurd (ground arith)
  sum-find k ((j, u) ∷ m) v h = ground (arith, sum-find k m v)
