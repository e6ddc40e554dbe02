-- ===== src/Frames/Subtree/Closure.antt =====
-- The loop of `collect_session_subtree` of src/runtime/frame.rs: it ends with a closed set.
use browserkit.Common.{
  ℕ, zero, suc, ◌+◌, ◌≤◌, ◌≡◌, ◌≢◌, refl, inl, inr, true, false, some, List, [], ◌∷◌, String,
  if◌then◌else◌, eqb, eqb_iff, Bool-cases, ◌==◌, beq_refl, string_eq, length, arith, has, add,
  has-add,
}
use browserkit.Common.Assoc.{lookup, contains_key}
use browserkit.Frames.Subtree.{Parents, pass, grow}

-- Every child of a session of the set is in the set.
pub Closed : Parents → List String → Type 0
Closed [] s = Unit
Closed ((child, parent) ∷ m) s = (has parent s ≡ true → has child s ≡ true) × Closed m s

pub length-add-le : (k : String) (s : List String) → length s ≤ length (add k s)
unfolding add
length-add-le k s = ground arith

pub has-pass :
    (x : String) (m : Parents) (s : List String) → has x s ≡ true → has x (pass m s) ≡ true
unfolding pass
has-pass x [] s h = h
has-pass x ((child, parent) ∷ m) s h =
    has-pass x m (if has parent s then add child s else s) (ground (arith, has-add child x s))

pub length-pass-le : (m : Parents) (s : List String) → length s ≤ length (pass m s)
unfolding pass
length-pass-le [] s = omega arith
length-pass-le ((child, parent) ∷ m) s =
    let rest = length-pass-le m (if has parent s then add child s else s) in
    ground (arith, length-add-le child s)

-- A pass that adds nothing has found nothing to add.
pub pass-Closed :
    (m : Parents) (s : List String) → length (pass m s) ≡ length s → Closed m s × (pass m s ≡ s)
unfolding pass Closed add
pass-Closed [] s h = (tt, refl)
pass-Closed ((child, parent) ∷ m) s h = elim (Bool-cases (has parent s)) [
  | inr e ↦ let (closed, same) = pass-Closed m s (rw e at h) in ((λ p. cc, closed), rw e same)
  | inl e ↦ elim (Bool-cases (has child s)) [
    | inl e' ↦
        let (closed, same) = pass-Closed m s (rw (e, e') at h) in
        ((λ p. e', closed), rw (e, e') same)
    | inr e' ↦
        let more = length-pass-le m (child ∷ s) in
        let fewer : length (pass m (child ∷ s)) ≡ length s = rw (e, e') at h in absurd (omega arith)
  ]
]

-- The entries of the map whose child is not in the set.
pub missing : Parents → List String → ℕ
missing [] s = 0
missing ((child, parent) ∷ m) s = (if has child s then 0 else 1) + missing m s

pub missing-le :
    (m : Parents) (s t : List String)
    → ((x : String) → has x s ≡ true → has x t ≡ true)
    → missing m t ≤ missing m s
unfolding missing
missing-le [] s t h = omega arith
missing-le ((child, parent) ∷ m) s t h = ground (arith, missing-le m s t h, h child)

pub missing-lt :
    (m : Parents) (s t : List String) (k : String)
    → ((x : String) → has x s ≡ true → has x t ≡ true)
    → contains_key k m ≡ true
    → has k s ≡ false
    → has k t ≡ true
    → suc (missing m t) ≤ missing m s
unfolding missing lookup
missing-lt [] s t k h there out into = cc
missing-lt ((child, parent) ∷ m) s t k h there out into = elim (Bool-cases (child == k)) [
  | inl e ↦ let same = (string_eq.beq_iff child k).0 e in ground (arith, missing-le m s t h)
  | inr e ↦ ground (arith, missing-lt m s t k h, h child)
]

pub missing-length : (m : Parents) (s : List String) → missing m s ≤ length m
unfolding missing
missing-length [] s = omega arith
missing-length ((child, parent) ∷ m) s = ground (arith, missing-length m s)

pub contains-tail :
    (k child parent : String) (m : Parents)
    → contains_key k m ≡ true
    → contains_key k ((child, parent) ∷ m) ≡ true
unfolding lookup
contains-tail k child parent m h = ground arith

-- A pass that adds something adds a child of the map.
pub pass-grows :
    (m : Parents) (s : List String)
    → length (pass m s) ≢ length s
    → (k : String) × (contains_key k m ≡ true) × (has k s ≡ false) × (has k (pass m s) ≡ true)
unfolding pass lookup add has
pass-grows [] s h = absurd (h refl)
pass-grows ((child, parent) ∷ m) s h = elim (Bool-cases (has parent s)) [
  | inr e ↦
      let (k, there, out, into) = pass-grows m s (rw e at h) in
      (k, contains-tail k child parent m there, out, rw e into)
  | inl e ↦ elim (Bool-cases (has child s)) [
    | inl e' ↦
        let (k, there, out, into) = pass-grows m s (rw (e, e') at h) in
        (k, contains-tail k child parent m there, out, rw (e, e') into)
    | inr e' ↦ (
      child,
      ground (arith, beq_refl child),
      e',
      rw (e, e') (has-pass child m (child ∷ s) (ground (arith, beq_refl child))),
    )
  ]
]

pub missing-Closed : (m : Parents) (s : List String) → missing m s ≤ 0 → Closed m s
unfolding missing Closed
missing-Closed [] s h = tt
missing-Closed ((child, parent) ∷ m) s h = elim (Bool-cases (has child s)) [
  | inl e ↦ (λ p. e, missing-Closed m s (ground arith))
  | inr e ↦ absurd (ground arith)
]

-- Fuel for each child that is missing is enough.
pub grow-Closed : (n : ℕ) (m : Parents) (s : List String) → missing m s ≤ n → Closed m (grow n m s)
unfolding grow
grow-Closed zero m s h = missing-Closed m s h
grow-Closed (suc n) m s h = elim (Bool-cases (eqb (length (pass m s)) (length s))) [
  | inl e ↦ let (closed, same) = pass-Closed m s (ground arith) in rw (e, grow, same) closed
  | inr e ↦
      let (k, there, out, into) =
        pass-grows m s (ground (arith, eqb_iff (length (pass m s)) (length s))) in
      let fewer = missing-lt m s (pass m s) k (λ x. has-pass x m s) there out into in
      rw (e, grow) (grow-Closed n m (pass m s) (omega arith))
]

pub has-grow :
    (n : ℕ) (x : String) (m : Parents) (s : List String)
    → has x s ≡ true
    → has x (grow n m s) ≡ true
unfolding grow
has-grow zero x m s h = h
has-grow (suc n) x m s h = elim (Bool-cases (eqb (length (pass m s)) (length s))) [
  | inl e ↦ rw (e, grow) (has-pass x m s h)
  | inr e ↦ rw (e, grow) (has-grow n x m (pass m s) (has-pass x m s h))
]

pub Closed-lookup :
    (child parent : String) (m : Parents) (s : List String)
    → Closed m s
    → lookup child m ≡ some parent
    → has parent s ≡ true
    → has child s ≡ true
unfolding Closed lookup
Closed-lookup child parent [] s closed found h = cc
Closed-lookup child parent ((k, p) ∷ m) s closed found h = elim (Bool-cases (k == child)) [
  | inl e ↦
      let same = (string_eq.beq_iff k child).0 e in
      let held = closed.0 (ground arith) in ground arith
  | inr e ↦ Closed-lookup child parent m s closed.1 (rw e at found) h
]
