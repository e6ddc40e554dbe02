-- ===== src/Frames/Fallback.antt =====
-- `resolve_live_parent` of src/runtime/frame.rs: the session that serves the frames of a session
-- that goes away.
use browserkit.Common.{
  ℕ, zero, suc, ◌≤◌, ◌≡◌, refl, ◌⊎◌, inl, inr, Bool, true, false, not, ◌&&◌, Option, none, some,
  List, [], ◌∷◌, String, if◌then◌else◌, is_some, Bool-cases, ◌==◌, beq_refl, string_eq, length,
  arith, has, add, has-add,
}
use browserkit.Common.Assoc.{lookup}
use browserkit.Frames.Subtree.{Parents}
use browserkit.Frames.Subtree.Closure.{missing, missing-lt, missing-length}

-- Whether a session can take over.
unfoldable pub can_serve : List String → List String → String → Bool
can_serve live removing session = not (has session removing) && has session live

-- The `while` loop, on fuel: from the candidate upwards, past the sessions that cannot serve.
unfoldable pub climb :
    ℕ → Parents → List String → List String → String → List String → Option String → String
climb n m live removing main visited none = main
climb zero m live removing main visited (some session) = main
climb (suc n) m live removing main visited (some session) =
    let rest = climb n m live removing main (add session visited) (lookup session m) in
    if has session visited then main else if can_serve live removing session then session else rest

-- A round that does not end the loop visits a new session of the map, or the last one.
unfoldable pub resolve_live_parent : Parents → List String → List String → String → String → String
resolve_live_parent m live removing session main =
    climb (suc (length m)) m live removing main (session ∷ []) (lookup session m)

-- A session that another was opened from, at any distance.
pub data IsAbove (m : Parents) (session : String) : String → Type 0 where
  parent : {p : String} → lookup session m ≡ some p → IsAbove m session p
  higher : {p q : String} → IsAbove m session p → lookup p m ≡ some q → IsAbove m session q

module _ (m : Parents) (live removing : List String) (session main : String) where
  -- None of the visited sessions can serve, and what is above them is visited, but the candidate.
  record IsSearched (visited : List String) (candidate : Option String) : Type 0 where
    inside : has session visited ≡ true
    useless : (x : String) → has x visited ≡ true → can_serve live removing x ≡ false
    upwards :
        (x p : String)
        → has x visited ≡ true
        → lookup x m ≡ some p
        → (has p visited ≡ true) ⊎ (candidate ≡ some p)
    above : (x : String) → candidate ≡ some x → IsAbove m session x

  -- What the loop finds: a session above that can serve, or the main one when there is none.
  unfoldable pub IsFallback : String → Type 0
  IsFallback found =
      (IsAbove m session found × (can_serve live removing found ≡ true))
      ⊎ ((found ≡ main) × ((x : String) → IsAbove m session x → can_serve live removing x ≡ false))

  -- When every session above a visited one is visited, none can serve.
  all_visited :
      (visited : List String) (candidate : Option String)
      → IsSearched visited candidate
      → ((p : String) → candidate ≡ some p → has p visited ≡ true)
      → (x : String) → IsAbove m session x
      → has x visited ≡ true
  all_visited visited candidate s into x (parent e) = elim (s.upwards session x s.inside e) [
    | inl h ↦ h
    | inr h ↦ into x h
  ]
  all_visited visited candidate s into x (higher {p} above e) =
      elim (s.upwards p x (all_visited visited candidate s into p above) e) [
        | inl h ↦ h
        | inr h ↦ into x h
      ]

  visit-IsSearched :
      (visited : List String) (next : String)
      → IsSearched visited (some next)
      → can_serve live removing next ≡ false
      → IsSearched (add next visited) (lookup next m)
  visit-IsSearched visited next s useless = record {
    inside = ground (arith, has-add next session visited, s.inside);
    useless = λ x h. elim (Bool-cases (next == x)) [
      | inl e ↦ ground (arith, string_eq.beq_iff next x)
      | inr e ↦ s.useless x (ground (arith, has-add next x visited))
    ];
    upwards = λ x p h found. elim (Bool-cases (next == x)) [
      | inl e ↦ inr (ground (arith, string_eq.beq_iff next x))
      | inr e ↦ elim (s.upwards x p (ground (arith, has-add next x visited)) found) [
        | inl v ↦ inl (ground (arith, has-add next p visited))
        | inr c ↦ inl (ground (arith, has-add next p visited, beq_refl p))
      ]
    ];
    above = λ x h. higher (s.above next refl) h;
  }

  climb-IsFallback :
      (n : ℕ) (visited : List String) (candidate : Option String)
      → (is_some candidate ≡ true → suc (missing m visited) ≤ n)
      → IsSearched visited candidate
      → IsFallback (climb n m live removing main visited candidate)
  unfolding climb IsFallback
  climb-IsFallback n visited none enough s =
      inr (refl, λ x above. s.useless x (all_visited visited none s (λ p h. cc) x above))
  climb-IsFallback zero visited (some next) enough s = absurd (omega (arith, enough refl))
  climb-IsFallback (suc n) visited (some next) enough s = elim (Bool-cases (has next visited)) [
    | inl e ↦
        rw (e, climb)
          (inr (
            refl,
            λ x above.
                s.useless x (all_visited visited (some next) s (λ p h. ground arith) x above),
          ))
    | inr e ↦ elim (Bool-cases (can_serve live removing next)) [
      | inl e' ↦ rw (e, e', climb) (inl (s.above next refl, e'))
      | inr e' ↦
          rw (e, e', climb)
            (climb-IsFallback n (add next visited) (lookup next m)
              (λ there.
                let fewer =
                  missing-lt m visited (add next visited) next
                    (λ x h. ground (arith, has-add next x visited)) there e
                    (ground (arith, has-add next next visited, beq_refl next)) in
                omega (arith, fewer, enough refl))
              (visit-IsSearched visited next s e'))
    ]
  ]

-- The frames of a session that is removed go to a session that it was opened from, directly or not,
-- which is live and stays; to the main session only when there is no such session.
pub resolve_live_parent-IsFallback :
    (m : Parents) (live removing : List String) (session main : String)
    → has session removing ≡ true
    → IsFallback m live removing session main (resolve_live_parent m live removing session main)
unfolding resolve_live_parent has can_serve
resolve_live_parent-IsFallback m live removing session main leaving =
    climb-IsFallback m live removing session main (suc (length m)) (session ∷ []) (lookup session m)
      (λ there. omega (arith, missing-length m (session ∷ [])))
      (record {
        inside = ground (arith, beq_refl session);
        useless = λ x h. ground (arith, string_eq.beq_iff session x);
        upwards = λ x p h found. inr (ground (arith, string_eq.beq_iff session x));
        above = λ x h. parent h;
      })
