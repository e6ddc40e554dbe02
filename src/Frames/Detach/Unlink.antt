-- ===== src/Frames/Detach/Unlink.antt =====
-- The end of `FrameGraph::detach` of src/runtime/frame.rs: the frame leaves its parent's children.
use browserkit.Common.{
  ◌≡◌, refl, ◌≢◌, inl, inr, Option, none, some, String, if◌then◌else◌, Option-cases, string_eq,
  arith, has-discard,
}
use browserkit.Common.Assoc.{lookup, modify, lookup-modify, length-modify}
use browserkit.Frames.Graph.{FrameGraph, names, drop_child, unlink}
use browserkit.Frames.Links.{IsLinked, drop_child-IsLinked}
use browserkit.Frames.Detach.{IsTrimmed, IsTrimmed-trans}

pub drop_child-IsTrimmed :
    (id parent_id : String) (g : FrameGraph)
    → IsTrimmed g (record g { frames = modify parent_id (drop_child id) g.frames })
unfolding drop_child
drop_child-IsTrimmed id parent_id g = record {
  kept = λ x r h. elim (Option-cases (lookup x g.frames)) [
    | inl e ↦ ground (arith, lookup-modify parent_id x (drop_child id) g.frames)
    | inr (r', e) ↦ (
      r',
      e,
      ground (arith, lookup-modify parent_id x (drop_child id) g.frames),
      λ child c. ground (
        arith,
        lookup-modify parent_id x (drop_child id) g.frames,
        has-discard id child r'.children,
      ),
    )
  ];
  parents = λ x p r h e c. ground (arith, lookup-modify parent_id p (drop_child id) g.frames);
  main = λ x h. (h, λ c. ground (arith, lookup-modify parent_id x (drop_child id) g.frames));
  smaller = omega (arith, length-modify parent_id (drop_child id) g.frames);
}

pub forget_main-IsTrimmed :
    (id : String) (g : FrameGraph)
    → IsTrimmed g
        (record g { main_frame_id = if names g.main_frame_id id then none else g.main_frame_id })
forget_main-IsTrimmed id g = record {
  kept = λ x r h. (r, h, refl, λ child c. c);
  parents = λ x p r h e c. c;
  main = λ x h. (ground arith, λ c. c);
  smaller = omega arith;
}

pub unlink-IsTrimmed :
    (id : String) (parent : Option String) (g : FrameGraph) → IsTrimmed g (unlink id parent g)
unfolding unlink
unlink-IsTrimmed id none g = forget_main-IsTrimmed id g
unlink-IsTrimmed id (some p) g =
    let dropped = record g { frames = modify p (drop_child id) g.frames } in
    IsTrimmed-trans g dropped (unlink id (some p) g) (drop_child-IsTrimmed id p g)
      (forget_main-IsTrimmed id dropped)

-- No frame is lost at the end of a call.
pub unlink-keeps :
    (id x : String) (parent : Option String) (g : FrameGraph)
    → lookup x (unlink id parent g).frames ≡ none
    → lookup x g.frames ≡ none
unfolding unlink
unlink-keeps id x none g h = h
unlink-keeps id x (some p) g h = ground (arith, lookup-modify p x (drop_child id) g.frames)

pub unlink-IsLinked :
    (id : String) (parent : Option String) (g : FrameGraph)
    → lookup id g.frames ≡ none
    → IsLinked g.frames
    → IsLinked (unlink id parent g).frames
unfolding unlink
unlink-IsLinked id none g gone linked = linked
unlink-IsLinked id (some p) g gone linked = drop_child-IsLinked p id g.frames gone linked

pub unlink-main :
    (id x : String) (parent : Option String) (g : FrameGraph)
    → (unlink id parent g).main_frame_id ≡ some x
    → id ≢ x
unfolding unlink
unlink-main id x parent g h e = ground (arith, string_eq.beq_iff x id)
