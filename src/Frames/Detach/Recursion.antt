-- ===== src/Frames/Detach/Recursion.antt =====
-- The recursion of `FrameGraph::detach` of src/runtime/frame.rs: fuel for each frame is enough.
use browserkit.Common.{
  ℕ, zero, suc, ◌≤◌, ◌≡◌, refl, ap, subst, inl, inr, none, some, [], ◌∷◌, String, is_some,
  Bool-cases, Option-cases, ◌==◌, beq_refl, string_eq, length, arith,
}
use browserkit.Common.Assoc.{lookup, lookup-remove, length-remove-le, length-remove-lt}
use browserkit.Frames.Graph.{
  FrameRecord, Frames, FrameGraph, unlink, without, each, detach_from, detach,
}
use browserkit.Frames.Links.{IsLinked, remove-IsLinked}
use browserkit.Frames.Detach.{
  IsTrimmed-refl, IsTrimmed-trans, Below, itself, IsDetached, Below-without, Below-prefix,
  stays_gone,
}
use browserkit.Frames.Detach.Loop.{AreDetached, each-AreDetached}
use browserkit.Frames.Detach.Unlink.{unlink-IsTrimmed, unlink-keeps, unlink-IsLinked, unlink-main}

-- One call that finds its frame, from what the loop over the children has done.
found-IsDetached :
    (id : String) (r : FrameRecord) (g below : FrameGraph)
    → lookup id g.frames ≡ some r
    → IsLinked g.frames
    → AreDetached r.children (without id g) below
    → IsDetached id g (unlink id r.parent below)
unfolding IsLinked
found-IsDetached id r g below found linked children =
    let left = unlink id r.parent below in
    let t =
      IsTrimmed-trans (without id g) below left children.trimmed
        (unlink-IsTrimmed id r.parent below) in
    let removed = lookup-remove id id g.frames in
    let gone_below =
      stays_gone (without id g) below id children.trimmed (ground (arith, removed, beq_refl id)) in
    record {
      trimmed = record {
        kept = λ x s h.
            let (s1, l1, e1, c1) = t.kept x s h in
            (s1, ground (arith, lookup-remove id x g.frames), e1, c1);
        parents = λ x p s h e c.
            let (s1, l1, e1, c1) = t.kept x s h in
            let was : lookup x g.frames ≡ some s1 = ground (arith, lookup-remove id x g.frames) in
            elim (Bool-cases (id == p)) [
              | inl same ↦
                  let e' : s1.parent ≡ some id = ground (arith, string_eq.beq_iff id p) in
                  let listed = linked x id s1 r was e' found in
                  let lost =
                    stays_gone below left x (unlink-IsTrimmed id r.parent below)
                      (children.gone x listed) in
                  cc
              | inr other ↦ t.parents x p s h e (ground (arith, lookup-remove id p g.frames))
            ];
        main = λ x h.
            let (m1, l1) = t.main x h in
            let other = unlink-main id x r.parent below h in
            (m1, λ c. l1 (ground (arith, lookup-remove id x g.frames, string_eq.beq_iff id x)));
        smaller = omega (arith, t.smaller, length-remove-le id g.frames);
      };
      linked = unlink-IsLinked id r.parent below gone_below children.linked;
      gone = stays_gone below left id (unlink-IsTrimmed id r.parent below) gone_below;
      only = λ x there gone. elim (Bool-cases (id == x)) [
        | inl same ↦ subst (Below g.frames id) ((string_eq.beq_iff id x).0 same) itself
        | inr other ↦
            let (child, listed, b) =
              children.only x (ground (arith, lookup-remove id x g.frames))
                (unlink-keeps id x r.parent below gone) in
            Below-prefix g.frames id child x r found listed (Below-without id g.frames child x b)
      ];
    }

lookup-empty : (id : String) (m : Frames) → length m ≤ 0 → lookup id m ≡ none
unfolding lookup
lookup-empty id [] h = refl
lookup-empty id (e ∷ m) h = ground arith

-- A frame that is unknown is detached already.
absent-IsDetached :
    (id : String) (g : FrameGraph)
    → lookup id g.frames ≡ none
    → IsLinked g.frames
    → IsDetached id g g
absent-IsDetached id g absent linked = record {
  trimmed = IsTrimmed-refl g;
  linked = linked;
  gone = absent;
  only = λ x there gone. cc;
}

-- Fuel for each frame is enough.
pub detach_from-IsDetached :
    (n : ℕ) (id : String) (g : FrameGraph)
    → length g.frames ≤ n
    → IsLinked g.frames
    → IsDetached id g (detach_from n id g)
unfolding detach_from
detach_from-IsDetached zero id g small linked =
    absent-IsDetached id g (lookup-empty id g.frames small) linked
detach_from-IsDetached (suc n) id g small linked = elim (Option-cases (lookup id g.frames)) [
  | inl e ↦ rw (e, detach_from) (absent-IsDetached id g e linked)
  | inr (r, e) ↦
      rw (e, detach_from)
        (found-IsDetached id r g (each (detach_from n) r.children (without id g)) e linked (
          each-AreDetached n (detach_from n) (λ c h. detach_from-IsDetached n c h) r.children
            (without id g) (omega (arith, small, length-remove-lt id g.frames (ap is_some e)))
            (remove-IsLinked id g.frames linked)))
]

-- The detached frame is gone. A frame that is left keeps all but some of its children, and its
-- parent is left when it had a record; a frame that went was the detached one or hung below it; the
-- main frame, when one is left, is the one before and still has its record. The links stay
-- complete. The graph's links are complete before.
pub detach-IsDetached :
    (id : String) (g : FrameGraph) → IsLinked g.frames → IsDetached id g (detach id g)
unfolding detach
detach-IsDetached id g linked = detach_from-IsDetached (length g.frames) id g (omega arith) linked
