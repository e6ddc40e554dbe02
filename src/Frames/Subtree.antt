-- ===== src/Frames/Subtree.antt =====
-- `collect_session_subtree` of src/runtime/frame.rs: a session and those that were opened from it,
-- by the parent of each session.
pub mod Closure
pub mod Collect
use browserkit.Common.{
  ℕ, zero, suc, ◌+◌, ◌≤◌, ◌≡◌, ◌≢◌, refl, ap, subst, sym, ◌∙◌, ◌⊎◌, ◌↔◌, inl, inr, Bool, true,
  false, not, ◌||◌, Option, none, some, List, [], ◌∷◌, String, if◌then◌else◌, is_some, eqb, eqb_iff,
  Bool-cases, ◌==◌, beq_refl, string_eq, length, arith, has, add, has-add,
}
use browserkit.Common.Assoc.{Assoc, lookup, contains_key, UniqueKeys}

abbrev pub Parents : Type 0
Parents = Assoc String String

-- The `for` loop: the set grows while it runs.
unfoldable pub pass : Parents → List String → List String
pass [] s = s
pass ((child, parent) ∷ m) s = pass m (if has parent s then add child s else s)

-- The `loop`, on fuel: it ends when a pass adds nothing.
unfoldable pub grow : ℕ → Parents → List String → List String
grow zero m s = s
grow (suc n) m s =
    let next = pass m s in
    let rest = grow n m next in if eqb (length next) (length s) then next else rest

-- Each pass but the last adds a child of the map, so one round for each entry is enough.
unfoldable pub collect_session_subtree : Parents → String → List String
collect_session_subtree m root = grow (length m) m (root ∷ [])

-- A session that was opened from another, at any distance.
pub data IsUnder (m : Parents) (root : String) : String → Type 0 where
  top : IsUnder m root root
  below :
      {child parent : String}
      → IsUnder m root parent
      → lookup child m ≡ some parent
      → IsUnder m root child
