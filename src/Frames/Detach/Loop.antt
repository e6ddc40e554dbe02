-- ===== src/Frames/Detach/Loop.antt =====
-- The loop of `FrameGraph::detach` of src/runtime/frame.rs over the children of a frame.
use browserkit.Common.{
  ℕ, ◌≤◌, ◌≡◌, subst, inl, inr, true, none, List, [], ◌∷◌, String, Bool-cases, Option-cases, ◌==◌,
  beq_refl, string_eq, length, arith, has,
}
use browserkit.Common.Assoc.{lookup, contains_key}
use browserkit.Frames.Graph.{FrameGraph, each}
use browserkit.Frames.Links.{IsLinked}
use browserkit.Frames.Detach.{
  IsTrimmed, IsTrimmed-refl, IsTrimmed-trans, Below, IsDetached, Below-IsTrimmed, stays_gone,
}

-- What the loop over the children promises.
pub record AreDetached (children : List String) (g left : FrameGraph) : Type 0 where
  pub trimmed : IsTrimmed g left
  pub linked : IsLinked left.frames
  pub gone : (child : String) → has child children ≡ true → lookup child left.frames ≡ none
  pub only :
      (x : String)
      → contains_key x g.frames ≡ true
      → lookup x left.frames ≡ none
      → (child : String) × (has child children ≡ true) × Below g.frames child x

pub each-AreDetached :
    (n : ℕ) (step : String → FrameGraph → FrameGraph)
    → ((id : String) (g : FrameGraph)
        → length g.frames ≤ n
        → IsLinked g.frames
        → IsDetached id g (step id g))
    → (children : List String) (g : FrameGraph) → length g.frames ≤ n
    → IsLinked g.frames
    → AreDetached children g (each step children g)
unfolding each has
each-AreDetached n step one [] g small linked = record {
  trimmed = IsTrimmed-refl g;
  linked = linked;
  gone = λ child h. cc;
  only = λ x there gone. ground arith;
}
each-AreDetached n step one (child ∷ children) g small linked =
    let first = one child g small linked in
    let next = step child g in
    let rest =
      each-AreDetached n step one children next (omega (arith, small, first.trimmed.smaller))
        first.linked in
    record {
      trimmed = IsTrimmed-trans g next (each step children next) first.trimmed rest.trimmed;
      linked = rest.linked;
      gone = λ x h. elim (Bool-cases (child == x)) [
        | inl e ↦
            let same = (string_eq.beq_iff child x).0 e in
            subst (λ y. lookup y (each step children next).frames ≡ none) same
              (stays_gone next (each step children next) child rest.trimmed first.gone)
        | inr e ↦ rest.gone x (rw e at h)
      ];
      only = λ x there gone. elim (Option-cases (lookup x next.frames)) [
        | inl e ↦ (child, ground (arith, beq_refl child), first.only x there e)
        | inr (r, e) ↦
            let (c, h, b) = rest.only x (ground arith) gone in
            (c, ground arith, Below-IsTrimmed g next c x first.trimmed b)
      ];
    }
