-- ===== src/Common/Sets.antt =====
-- `BTreeSet` and `HashSet` as lists that hold an element once. The order of the list is the order
-- in which an iteration meets the elements, which no result that is modelled depends on.
use mathlib.Core.Path.{◌≡◌, refl}
use mathlib.Core.Bool.{Bool, false, ◌||◌}
use mathlib.Core.List.{List, [], ◌∷◌}
use native.Mathlib.Omega.{arith}
use browserkit.Common.Tests.{if◌then◌else◌}
use browserkit.Common.Equality.{Key, ◌==◌}

module _ {κ} {K : Type κ} ⦃e : Key K⦄ where
  unfoldable pub has : K → List K → Bool
  has k [] = false
  has k (j ∷ s) = (j == k) || has k s

  unfoldable pub add : K → List K → List K
  add k s = if has k s then s else k ∷ s

  -- `extend`.
  unfoldable pub add_all : List K → List K → List K
  add_all [] s = s
  add_all (k ∷ ks) s = add k (add_all ks s)

  unfoldable pub discard : K → List K → List K
  discard k [] = []
  discard k (j ∷ s) = let rest = discard k s in if j == k then rest else j ∷ rest

  pub has-add : (k wanted : K) (s : List K) → has wanted (add k s) ≡ (k == wanted) || has wanted s
  unfolding has add
  has-add k wanted s = ground (arith, e.beq_iff k wanted)

  pub has-add_all :
      (ks : List K) (wanted : K) (s : List K)
      → has wanted (add_all ks s) ≡ has wanted ks || has wanted s
  unfolding has add_all
  has-add_all [] wanted s = refl
  has-add_all (k ∷ ks) wanted s =
      ground (arith, has-add k wanted (add_all ks s), has-add_all ks wanted s)

  pub has-discard :
      (k wanted : K) (s : List K)
      → has wanted (discard k s) ≡ (if k == wanted then false else has wanted s)
  unfolding has discard
  has-discard k wanted [] = ground arith
  has-discard k wanted (j ∷ s) =
      ground (arith, e.beq_iff k wanted, e.beq_iff j k, e.beq_iff j wanted, has-discard k wanted s)
