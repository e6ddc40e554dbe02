-- ===== src/Daemon/Persist/Saved.antt =====
-- The sorted lists that src/daemon/persist.rs saves and the maps that it fills from them.
use browserkit.Common.{
  ◌≡◌, refl, subst, ◌∙◌, inl, inr, false, Option, none, some, List, [], ◌∷◌, map, String,
  if◌then◌else◌, Bool-cases, ◌==◌, string_eq, arith,
}
use browserkit.Common.Assoc.{Assoc, lookup, insert, lookup-insert, UniqueKeys}
use browserkit.Common.Sort.{goes_after, sort_in, sort_by}

module _ {A : Type 0} (by : A → String) where
  pub find : String → List A → Option A
  find k [] = none
  find k (x ∷ xs) = if by x == k then some x else find k xs

  pub Distinct : List A → Type 0
  Distinct [] = Unit
  Distinct (x ∷ xs) = (find (by x) xs ≡ none) × Distinct xs

  pub find-sort_in :
      (x : A) (k : String) (xs : List A)
      → find (by x) xs ≡ none
      → find k (sort_in by x xs) ≡ (if by x == k then some x else find k xs)
  unfolding find sort_in
  find-sort_in x k [] h = refl
  find-sort_in x k (y ∷ ys) h = ground (
    arith,
    find-sort_in x k ys,
    string_eq.beq_iff (by x) k,
    string_eq.beq_iff (by y) k,
    string_eq.beq_iff (by y) (by x),
  )

  pub sort_in-Distinct :
      (x : A) (xs : List A) → find (by x) xs ≡ none → Distinct xs → Distinct (sort_in by x xs)
  unfolding find sort_in Distinct
  sort_in-Distinct x [] h d = (refl, tt)
  sort_in-Distinct x (y ∷ ys) h d = elim (Bool-cases (goes_after (by x) (by y))) [
    | inr e ↦ rw e (h, d)
    | inl e ↦
        let other : by y == by x ≡ false = ground arith in
        let rest : find (by x) ys ≡ none = ground arith in
        rw e (
          ground (
            arith,
            find-sort_in x (by y) ys rest,
            string_eq.beq_iff (by x) (by y),
            string_eq.beq_iff (by y) (by x),
            d.0,
          ),
          sort_in-Distinct x ys rest d.1,
        )
  ]

  pub sort_by-Distinct :
      (xs : List A)
      → Distinct xs
      → Distinct (sort_by by xs) × ((k : String) → find k (sort_by by xs) ≡ find k xs)
  unfolding sort_by Distinct find
  sort_by-Distinct [] d = (tt, λ k. refl)
  sort_by-Distinct (x ∷ xs) d =
      let (e, same) = sort_by-Distinct xs d.1 in
      let free = same (by x) ∙ d.0 in
      (
        sort_in-Distinct x (sort_by by xs) free e,
        λ k. ground (arith, find-sort_in x k (sort_by by xs) free, same k),
      )

module _ {A B : Type 0} (by : A → String) (f : A → B) where
  -- The loop of a restore: each element goes into the map under its name.
  unfoldable pub insert_all : List A → Assoc String B → Assoc String B
  insert_all [] m = m
  insert_all (x ∷ xs) m = insert_all xs (insert (by x) (f x) m)

  pub lookup-insert_all :
      (xs : List A) (k : String) (m : Assoc String B)
      → Distinct by xs
      → lookup k (insert_all xs m) ≡ elim (find by k xs) [ none ↦ lookup k m | some x ↦ some (f x) ]
  unfolding insert_all find Distinct
  lookup-insert_all [] k m d = refl
  lookup-insert_all (x ∷ xs) k m d = elim (Bool-cases (by x == k)) [
    | inl e ↦
        let same = (string_eq.beq_iff (by x) k).0 e in
        let absent : find by k xs ≡ none = subst (λ y. find by y xs ≡ none) same d.0 in
        ground (
          arith,
          lookup-insert_all xs k (insert (by x) (f x) m),
          lookup-insert (by x) k (f x) m,
          d.1,
        )
    | inr e ↦
        ground (
          arith,
          lookup-insert_all xs k (insert (by x) (f x) m),
          lookup-insert (by x) k (f x) m,
          d.1,
        )
  ]

module _ {V A : Type 0} (by : A → String) (g : V → A) where
  -- Each key of a map is the name of its value.
  unfoldable pub Named : Assoc String V → Type 0
  Named [] = Unit
  Named ((k, v) ∷ m) = (by (g v) ≡ k) × Named m

  pub values : Assoc String V → List A
  values m = map (λ e. g e.1) m

  pub find-values :
      (k : String) (m : Assoc String V)
      → Named m
      → find by k (values m) ≡ elim (lookup k m) [ none ↦ none | some v ↦ some (g v) ]
  unfolding Named values find lookup
  find-values k [] n = refl
  find-values k ((j, v) ∷ m) n =
      ground
        (arith, find-values k m, n.0, n.1, string_eq.beq_iff j k, string_eq.beq_iff (by (g v)) k)

  pub values-Distinct : (m : Assoc String V) → Named m → UniqueKeys m → Distinct by (values m)
  unfolding Named values Distinct
  values-Distinct [] n u = tt
  values-Distinct ((k, v) ∷ m) n u =
      (find-values (by (g v)) m n.1 ∙ ground arith, values-Distinct m n.1 u.1)

  -- A map saved as a sorted list and filled again has the values that the two changes give.
  pub lookup-saved :
      {B : Type 0} (f : A → B) (k : String) (m : Assoc String V)
      → Named m
      → UniqueKeys m
      → lookup k (insert_all by f (sort_by by (map (λ e. g e.1) m)) [])
        ≡ elim (lookup k m) [ none ↦ none | some v ↦ some (f (g v)) ]
  unfolding values lookup
  lookup-saved f k m n u =
      let (distinct, same) = sort_by-Distinct by (values m) (values-Distinct m n u) in
      let found = same k ∙ find-values k m n in
      ground (arith, lookup-insert_all by f (sort_by by (values m)) k [] distinct, found)
