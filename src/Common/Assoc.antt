-- ===== src/Common/Assoc.antt =====
-- `HashMap` and `DashMap` as association lists. The order of the list is the order in which an
-- iteration meets the entries, which the program leaves open.
use Prim.Native.Nat.{ℕ, suc, ◌+◌, ◌≤◌}
use mathlib.Core.Path.{◌≡◌, refl, subst}
use mathlib.Core.Logic.{inl, inr}
use mathlib.Core.Bool.{Bool, true}
use mathlib.Core.Option.{Option, none, some}
use mathlib.Core.List.{List, [], ◌∷◌}
use native.Mathlib.Omega.{arith}
use browserkit.Common.Tests.{if◌then◌else◌, is_some, Bool-cases}
use browserkit.Common.Lists.{length}
use browserkit.Common.Equality.{Key, ◌==◌}

abbrev pub Assoc {ℓ κ} : Type ℓ → Type κ → Type (ℓ ⊔ κ)
Assoc K V = List (K × V)

module _ {ℓ κ} {K : Type ℓ} {V : Type κ} ⦃e : Key K⦄ where
  unfoldable pub lookup : K → Assoc K V → Option V
  lookup k [] = none
  lookup k ((j, v) ∷ m) = if j == k then some v else lookup k m

  -- The value of a present key is replaced; a new key goes to the end.
  unfoldable pub insert : K → V → Assoc K V → Assoc K V
  insert k v [] = (k, v) ∷ []
  insert k v ((j, w) ∷ m) = if j == k then (k, v) ∷ m else (j, w) ∷ insert k v m

  unfoldable pub remove : K → Assoc K V → Assoc K V
  remove k [] = []
  remove k ((j, v) ∷ m) = let rest = remove k m in if j == k then rest else (j, v) ∷ rest

  -- A write through `get_mut`.
  unfoldable pub modify : K → (V → V) → Assoc K V → Assoc K V
  modify k f [] = []
  modify k f ((j, v) ∷ m) = if j == k then (j, f v) ∷ m else (j, v) ∷ modify k f m

  abbrev pub contains_key : K → Assoc K V → Bool
  contains_key k m = is_some (lookup k m)

  pub lookup-insert :
      (key wanted : K) (v : V) (m : Assoc K V)
      → lookup wanted (insert key v m) ≡ (if key == wanted then some v else lookup wanted m)
  unfolding lookup insert
  lookup-insert key wanted v ((held, w) ∷ m) = ground (
    arith,
    lookup-insert key wanted v m,
    e.beq_iff held key,
    e.beq_iff key wanted,
    e.beq_iff held wanted,
  )
  lookup-insert key wanted v [] = refl

  pub lookup-remove :
      (k j : K) (m : Assoc K V) → lookup j (remove k m) ≡ (if k == j then none else lookup j m)
  unfolding lookup remove
  lookup-remove k j [] = ground arith
  lookup-remove k j ((i, w) ∷ m) =
      ground (arith, e.beq_iff k j, e.beq_iff i k, e.beq_iff i j, lookup-remove k j m)

  pub lookup-modify :
      (k j : K) (f : V → V) (m : Assoc K V)
      → lookup j (modify k f m)
        ≡ (if k == j then elim (lookup j m) [ none ↦ none | some v ↦ some (f v) ] else lookup j m)
  unfolding lookup modify
  lookup-modify k j f [] = ground arith
  lookup-modify k j f ((i, w) ∷ m) =
      ground (arith, e.beq_iff k j, e.beq_iff i k, e.beq_iff i j, lookup-modify k j f m)

  -- What an iteration meets first.
  abbrev pub first_key : Assoc K V → Option K
  first_key [] = none
  first_key ((k, v) ∷ m) = some k

  pub first_key-contains_key :
      (k : K) (m : Assoc K V) → first_key m ≡ some k → contains_key k m ≡ true
  unfolding lookup
  first_key-contains_key k [] h = cc
  first_key-contains_key k ((j, v) ∷ m) h = ground (arith, e.beq_iff j k)

  -- A map holds a key once.
  abbrev pub UniqueKeys : Assoc K V → Type κ
  UniqueKeys [] = Unit
  UniqueKeys ((k, v) ∷ m) = (lookup k m ≡ none) × UniqueKeys m

  pub insert-UniqueKeys : (k : K) (v : V) (m : Assoc K V) → UniqueKeys m → UniqueKeys (insert k v m)
  unfolding lookup insert
  insert-UniqueKeys k v [] u = (refl, tt)
  insert-UniqueKeys k v ((j, w) ∷ m) u =
      ground
        (arith, e.beq_iff j k, e.beq_iff k j, insert-UniqueKeys k v m u.1, lookup-insert k j v m)

  pub remove-UniqueKeys : (k : K) (m : Assoc K V) → UniqueKeys m → UniqueKeys (remove k m)
  unfolding lookup remove
  remove-UniqueKeys k [] u = tt
  remove-UniqueKeys k ((j, w) ∷ m) u =
      ground (arith, remove-UniqueKeys k m u.1, lookup-remove k j m)

  pub modify-UniqueKeys :
      (k : K) (f : V → V) (m : Assoc K V) → UniqueKeys m → UniqueKeys (modify k f m)
  unfolding lookup modify
  modify-UniqueKeys k f [] u = tt
  modify-UniqueKeys k f ((j, w) ∷ m) u =
      ground (arith, modify-UniqueKeys k f m u.1, lookup-modify k j f m)

  pub remove_absent : (k : K) (m : Assoc K V) → lookup k m ≡ none → remove k m ≡ m
  unfolding lookup remove
  remove_absent k [] h = refl
  remove_absent k ((j, w) ∷ m) h = ground (arith, remove_absent k m)

  pub length-insert :
      (k : K) (v : V) (m : Assoc K V)
      → length (insert k v m) ≡ (if contains_key k m then length m else suc (length m))
  unfolding lookup insert
  length-insert k v [] = refl
  length-insert k v ((j, w) ∷ m) = ground (arith, length-insert k v m)

  pub length-remove :
      (k : K) (m : Assoc K V)
      → UniqueKeys m
      → contains_key k m ≡ true
      → suc (length (remove k m)) ≡ length m
  unfolding lookup remove
  length-remove k [] u h = cc
  length-remove k ((j, w) ∷ m) u h =
      ground (arith, e.beq_iff j k, length-remove k m u.1, remove_absent k m)

  pub length-modify : (k : K) (f : V → V) (m : Assoc K V) → length (modify k f m) ≡ length m
  unfolding modify
  length-modify k f [] = refl
  length-modify k f ((j, w) ∷ m) = ground (arith, length-modify k f m)

  -- A number for each value, summed over the map.
  abbrev pub total : (V → ℕ) → Assoc K V → ℕ
  total f [] = 0
  total f ((k, v) ∷ m) = f v + total f m

  pub total-insert-le :
      (f : V → ℕ) (k : K) (v : V) (m : Assoc K V) → total f (insert k v m) ≤ total f m + f v
  unfolding insert
  total-insert-le f k v [] = omega arith
  total-insert-le f k v ((j, w) ∷ m) = ground (arith, total-insert-le f k v m)

  pub total-insert_new :
      (f : V → ℕ) (k : K) (v : V) (m : Assoc K V)
      → lookup k m ≡ none
      → total f (insert k v m) ≡ total f m + f v
  unfolding insert lookup
  total-insert_new f k v [] h = omega arith
  total-insert_new f k v ((j, w) ∷ m) h = ground (arith, total-insert_new f k v m)

  pub total-remove-le : (f : V → ℕ) (k : K) (m : Assoc K V) → total f (remove k m) ≤ total f m
  unfolding remove
  total-remove-le f k [] = omega arith
  total-remove-le f k ((j, w) ∷ m) = ground (arith, total-remove-le f k m)

  pub total-modify :
      (f : V → ℕ) (k : K) (g : V → V) (v : V) (m : Assoc K V)
      → lookup k m ≡ some v
      → total f (modify k g m) + f v ≡ total f m + f (g v)
  unfolding lookup modify
  total-modify f k g v [] h = cc
  total-modify f k g v ((j, w) ∷ m) h = ground (arith, total-modify f k g v m)

  pub le-total : (f : V → ℕ) (k : K) (v : V) (m : Assoc K V) → lookup k m ≡ some v → f v ≤ total f m
  unfolding lookup
  le-total f k v [] h = cc
  le-total f k v ((j, w) ∷ m) h = ground (arith, le-total f k v m)

  pub modify_absent : (k : K) (g : V → V) (m : Assoc K V) → lookup k m ≡ none → modify k g m ≡ m
  unfolding lookup modify
  modify_absent k g [] h = refl
  modify_absent k g ((j, w) ∷ m) h = ground (arith, modify_absent k g m)

  -- What holds of every value.
  abbrev pub AllValues {ι} : (V → Type ι) → Assoc K V → Type ι
  AllValues P [] = Unit
  AllValues P ((k, v) ∷ m) = P v × AllValues P m

  pub AllValues-modify {ι} :
      (P : V → Type ι) (k : K) (g : V → V) (m : Assoc K V)
      → ((v : V) → P v → P (g v))
      → AllValues P m
      → AllValues P (modify k g m)
  unfolding modify
  AllValues-modify P k g [] h a = tt
  AllValues-modify P k g ((j, w) ∷ m) h a = elim (Bool-cases (j == k)) [
    | inl e ↦ rw e (h w a.0, a.1)
    | inr e ↦ rw e (a.0, AllValues-modify P k g m h a.1)
  ]

  pub AllValues-lookup {ι} :
      (P : V → Type ι) (k : K) (v : V) (m : Assoc K V) → AllValues P m → lookup k m ≡ some v → P v
  unfolding lookup
  AllValues-lookup P k v [] a h = cc
  AllValues-lookup P k v ((j, w) ∷ m) a h = elim (Bool-cases (j == k)) [
    | inl e ↦ let same : w ≡ v = ground arith in subst P same a.0
    | inr e ↦ AllValues-lookup P k v m a.1 (rw e at h)
  ]

  pub length-remove-le : (k : K) (m : Assoc K V) → length (remove k m) ≤ length m
  unfolding remove
  length-remove-le k [] = omega arith
  length-remove-le k ((j, w) ∷ m) = ground (arith, length-remove-le k m)

  -- A change of one value needs an argument at that value only.
  pub AllValues-modify_at {ι} :
      (P : V → Type ι) (k : K) (g : V → V) (v : V) (m : Assoc K V)
      → lookup k m ≡ some v
      → P (g v)
      → AllValues P m
      → AllValues P (modify k g m)
  unfolding modify lookup
  AllValues-modify_at P k g v [] h p a = tt
  AllValues-modify_at P k g v ((j, w) ∷ m) h p a = elim (Bool-cases (j == k)) [
    | inl e ↦ let same : v ≡ w = ground arith in rw e (subst (λ x. P (g x)) same p, a.1)
    | inr e ↦ rw e (a.0, AllValues-modify_at P k g v m (rw e at h) p a.1)
  ]

  pub length-remove-lt :
      (k : K) (m : Assoc K V) → contains_key k m ≡ true → suc (length (remove k m)) ≤ length m
  unfolding lookup remove
  length-remove-lt k [] h = cc
  length-remove-lt k ((j, w) ∷ m) h = ground (arith, length-remove-lt k m, length-remove-le k m)

  pub AllValues-insert {ι} :
      (P : V → Type ι) (k : K) (v : V) (m : Assoc K V)
      → P v
      → AllValues P m
      → AllValues P (insert k v m)
  unfolding insert
  AllValues-insert P k v [] p a = (p, tt)
  AllValues-insert P k v ((j, w) ∷ m) p a = elim (Bool-cases (j == k)) [
    | inl e ↦ rw e (p, a.1)
    | inr e ↦ rw e (a.0, AllValues-insert P k v m p a.1)
  ]

  pub AllValues-map {ι κ'} :
      (P : V → Type ι) (Q : V → Type κ') (f : (v : V) → P v → Q v) (m : Assoc K V)
      → AllValues P m
      → AllValues Q m
  AllValues-map P Q f [] a = tt
  AllValues-map P Q f ((k, v) ∷ m) a = (f v a.0, AllValues-map P Q f m a.1)
