-- ===== src/Frames/Subtree/Collect.antt =====
-- What `collect_session_subtree` of src/runtime/frame.rs finds.
use browserkit.Common.{
  ℕ, zero, suc, ◌≡◌, subst, ◌↔◌, inl, inr, true, some, List, [], ◌∷◌, String, eqb, Bool-cases, ◌==◌,
  beq_refl, string_eq, length, arith, has, add, has-add,
}
use browserkit.Common.Assoc.{lookup, UniqueKeys}
use browserkit.Common.{All, All-map}
use browserkit.Frames.Subtree.{Parents, pass, grow, collect_session_subtree, IsUnder, top, below}
use browserkit.Frames.Subtree.Closure.{grow-Closed, missing-length, has-grow, Closed-lookup}

-- Each session below the root is found.
pub IsUnder-collect :
    (m : Parents) (root x : String)
    → IsUnder m root x
    → has x (collect_session_subtree m root) ≡ true
unfolding collect_session_subtree has
IsUnder-collect m root x top =
    has-grow (length m) root m (root ∷ []) (ground (arith, beq_refl root))
IsUnder-collect m root x (below {parent} under found) =
    Closed-lookup x parent m (collect_session_subtree m root)
      (grow-Closed (length m) m (root ∷ []) (missing-length m (root ∷ []))) found
      (IsUnder-collect m root parent under)

-- Entries of a part of a map.
Entries : Parents → Parents → Type 0
Entries part m = All (λ e. lookup e.0 m ≡ some e.1) part

Entries-all : (m : Parents) → UniqueKeys m → Entries m m
unfolding Entries lookup
Entries-all [] u = tt
Entries-all ((k, p) ∷ m) u = (
  ground (arith, beq_refl k),
  All-map (λ e. lookup e.0 m ≡ some e.1) (λ e. lookup e.0 ((k, p) ∷ m) ≡ some e.1)
      (λ e h. ground (arith, string_eq.beq_iff k e.0, u.0, h)) m (Entries-all m u.1),
)

pass-IsUnder :
    (root : String) (part m : Parents) (s : List String)
    → Entries part m
    → ((x : String) → has x s ≡ true → IsUnder m root x)
    → (x : String) → has x (pass part s) ≡ true
    → IsUnder m root x
unfolding pass Entries
pass-IsUnder root [] m s entries h x found = h x found
pass-IsUnder root ((child, parent) ∷ part) m s entries h x found =
    elim (Bool-cases (has parent s)) [
      | inr e ↦ pass-IsUnder root part m s entries.1 h x (rw e at found)
      | inl e ↦
          pass-IsUnder root part m (add child s) entries.1
            (λ y into. elim (Bool-cases (child == y)) [
              | inl e' ↦
                  subst (IsUnder m root) ((string_eq.beq_iff child y).0 e')
                    (below (h parent e) entries.0)
              | inr e' ↦ h y (ground (arith, has-add child y s))
            ])
            x (rw e at found)
    ]

grow-IsUnder :
    (n : ℕ) (root : String) (m : Parents) (s : List String)
    → UniqueKeys m
    → ((x : String) → has x s ≡ true → IsUnder m root x)
    → (x : String) → has x (grow n m s) ≡ true
    → IsUnder m root x
unfolding grow
grow-IsUnder zero root m s u h x found = h x found
grow-IsUnder (suc n) root m s u h x found =
    let next = pass-IsUnder root m m s (Entries-all m u) h in
    elim (Bool-cases (eqb (length (pass m s)) (length s))) [
      | inl e ↦ next x (rw e at found)
      | inr e ↦ grow-IsUnder n root m (pass m s) u next x (rw e at found)
    ]

-- The subtree of a session is the session and every session that was opened from it, at any
-- distance, and no other. A session has one parent in the map.
pub collect_session_subtree-IsUnder :
    (m : Parents) (root x : String)
    → UniqueKeys m
    → (has x (collect_session_subtree m root) ≡ true) ↔ IsUnder m root x
unfolding collect_session_subtree has
collect_session_subtree-IsUnder m root x u = (
  λ found.
      grow-IsUnder (length m) root m (root ∷ []) u
        (λ y h. subst (IsUnder m root) (ground (arith, string_eq.beq_iff root y)) top) x found,
  λ under. IsUnder-collect m root x under,
)
