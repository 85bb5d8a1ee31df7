-- ===== src/Base/Pigeonhole.antt =====
-- Distinct numbers below a bound are at most as many as the bound.
use Prim.Native.Nat.{ℕ, zero, suc, ◌≤◌, ◌<◌}
use mathlib.Core.Path.{◌≡◌, refl}
use mathlib.Core.Bool.{false}
use mathlib.Core.List.{List, [], ◌∷◌}
use native.Mathlib.Omega.{arith}
use yquant_system.Base.Tests.{◌==◌, if◌then◌else◌}
use yquant_system.Base.Lists.{length, has, AllDistinct}

-- Every entry is below the bound.
abbrev pub AllBelow : ℕ → List ℕ → Type 0
AllBelow n [] = Unit {0}
AllBelow n (i ∷ xs) = (i < n) × AllBelow n xs

remove : ℕ → List ℕ → List ℕ
remove a [] = []
remove a (x ∷ xs) = if a == x then xs else x ∷ remove a xs

has-remove : (a b : ℕ) (xs : List ℕ) → has b xs ≡ false → has b (remove a xs) ≡ false
unfolding remove
has-remove a b [] h = refl
has-remove a b (x ∷ xs) h = ground (arith, has-remove a b xs)

remove-AllDistinct : (a : ℕ) (xs : List ℕ) → AllDistinct xs → AllDistinct (remove a xs)
unfolding remove
remove-AllDistinct a [] d = tt
remove-AllDistinct a (x ∷ xs) d = ground (arith, remove-AllDistinct a xs d.1, has-remove a x xs d.0)

below_of_not-mem : (k : ℕ) (xs : List ℕ) → has k xs ≡ false → AllBelow (suc k) xs → AllBelow k xs
below_of_not-mem k [] h b = tt
below_of_not-mem k (x ∷ xs) h b = ground (arith, below_of_not-mem k xs)

remove-AllBelow :
    (k : ℕ) (xs : List ℕ) → AllDistinct xs → AllBelow (suc k) xs → AllBelow k (remove k xs)
unfolding remove
remove-AllBelow k [] d b = tt
remove-AllBelow k (x ∷ xs) d b = ground (arith, remove-AllBelow k xs d.1 b.1, below_of_not-mem k xs)

length-remove-le : (a : ℕ) (xs : List ℕ) → length xs ≤ suc (length (remove a xs))
unfolding remove
length-remove-le a [] = omega arith
length-remove-le a (x ∷ xs) = ground (arith, length-remove-le a xs)

pub length_le_bound : (n : ℕ) (xs : List ℕ) → AllDistinct xs → AllBelow n xs → length xs ≤ n
length_le_bound n [] d b = omega arith
length_le_bound zero (x ∷ xs) d b = absurd (omega arith)
length_le_bound (suc k) (x ∷ xs) d b = omega (
  arith,
  length-remove-le k (x ∷ xs),
  length_le_bound k (remove k (x ∷ xs)) (remove-AllDistinct k (x ∷ xs) d)
      (remove-AllBelow k (x ∷ xs) d b),
)
