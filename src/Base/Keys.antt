-- ===== src/Base/Keys.antt =====
-- A Go set, `map[K]struct{}`, as a list of its keys.
use docker_analysis.Base.Classes.{Eq, ◌==◌}
use docker_analysis.Base.Tests.{if◌then◌else◌}
use mathlib.Core.Bool.{Bool, false, ◌||◌}
use mathlib.Core.List.{List, [], ◌∷◌}
use mathlib.Core.Path.{◌≡◌}
use native.Mathlib.Omega.{arith}

module _ {ℓ} {K : Type ℓ} ⦃e : Eq K⦄ where
  unfoldable pub contains : List K → K → Bool
  contains [] k = false
  contains (x ∷ xs) k = (x == k) || contains xs k

  unfoldable pub add : K → List K → List K
  unfolding contains
  add k xs = if contains xs k then xs else k ∷ xs

  unfoldable pub remove : K → List K → List K
  remove k [] = []
  remove k (x ∷ xs) = let rest = remove k xs in if x == k then rest else x ∷ rest

  pub contains-add : (k j : K) (xs : List K) → contains (add k xs) j ≡ ((k == j) || contains xs j)
  unfolding contains add
  contains-add k j xs = ground (arith, e.beq_iff k j)

  pub contains-remove :
      (k j : K) (xs : List K) → contains (remove k xs) j ≡ (if k == j then false else contains xs j)
  unfolding contains remove
  contains-remove k j [] = ground arith
  contains-remove k j (x ∷ xs) =
      ground (arith, e.beq_iff k j, e.beq_iff x k, e.beq_iff x j, contains-remove k j xs)
