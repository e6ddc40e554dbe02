-- ===== src/Frames/Changes.antt =====
-- The changes of `FrameGraph` of src/runtime/frame.rs in any order: what holds of every graph that
-- they lead to.
pub mod Links
pub mod MainFrame
pub mod Reached
use browserkit.Common.{
  ◌≡◌, refl, ◌⊎◌, inl, inr, Bool, true, false, Option, none, some, [], ◌∷◌, String, if◌then◌else◌,
  is_some, Bool-cases, Option-cases, ◌==◌, beq_refl, string_eq, arith, has,
}
use browserkit.Common.Assoc.{lookup, modify, contains_key, lookup-modify}
use browserkit.Frames.Graph.{
  FrameRecord, Frames, FrameGraph, new, attach, attach_record, add_child, navigate, commit, detach,
}
use browserkit.Frames.Routes.{
  set_route_active, route_to_session, can_route_oopif, route_oopif, reroute_session, routed,
  reroute, reroute_frames,
}
use browserkit.Frames.Links.{IsLinked, IsGrowth, modify-IsLinked}
use browserkit.Frames.Links.Attached.{attach-IsLinked, navigate-IsLinked, lookup-attach_record}
use browserkit.Frames.Detach.{IsTrimmed, IsDetached}
use browserkit.Frames.Detach.Recursion.{detach-IsDetached}

-- The events of the page, and the routes of child sessions.
pub data Change (g : FrameGraph) : FrameGraph → Type 0 where
  attached : (id : String) (parent : Option String) → Change g (attach id parent g)
  navigated :
      (id : String) (parent : Option String) (loader : String)
      → Change g (navigate id parent loader g).0
  detached : (id : String) → Change g (detach id g)
  activity : (id : String) (active : Bool) → Change g (set_route_active id active g)
  moved :
      (id session : String) (target : Option String)
      → Change g (route_to_session id session target g).0
  served :
      (id : String) (parent parent_session : Option String) (session target : String)
      → Change g (route_oopif id parent parent_session session target g).0
  rerouted : (session fallback : String) → Change g (reroute_session session fallback g)

pub data IsReached : FrameGraph → Type 0 where
  start : (main : String) → IsReached (new main)
  more : {g h : FrameGraph} → IsReached g → Change g h → IsReached h
