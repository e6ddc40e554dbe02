-- ===== src/Common/Sort.antt =====
-- `sort_by` and `sort_by_key` on texts, which are stable.
use Prim.Native.Nat.{Ordering}
use Prim.Native.String.{String, compare}
use mathlib.Core.Bool.{Bool, true, false}
use mathlib.Core.List.{List, [], ◌∷◌}
use browserkit.Common.Tests.{if◌then◌else◌}

abbrev pub goes_after : String → String → Bool
goes_after a b = elim (compare a b) [ Ordering.gt ↦ true | _ ↦ false ]

module _ {A : Type 0} (by : A → String) where
  unfoldable pub sort_in : A → List A → List A
  sort_in x [] = x ∷ []
  sort_in x (y ∷ ys) = if goes_after (by x) (by y) then y ∷ sort_in x ys else x ∷ y ∷ ys

  unfoldable pub sort_by : List A → List A
  sort_by [] = []
  sort_by (x ∷ xs) = sort_in x (sort_by xs)
