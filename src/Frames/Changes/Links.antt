-- ===== src/Frames/Changes/Links.antt =====
-- Each change of `FrameGraph` of src/runtime/frame.rs and the links of the frames.
use browserkit.Common.{
  ◌≡◌, refl, inl, inr, Bool, Option, none, some, [], ◌∷◌, String, Bool-cases, Option-cases,
  string_eq, arith,
}
use browserkit.Common.Assoc.{lookup}
use browserkit.Frames.Graph.{FrameRecord, Frames, FrameGraph, attach}
use browserkit.Frames.Routes.{
  set_route_active, route_to_session, can_route_oopif, route_oopif, reroute_session, routed,
  reroute, reroute_frames,
}
use browserkit.Frames.Links.{IsLinked, IsGrowth, modify-IsLinked}
use browserkit.Frames.Links.Attached.{attach-IsLinked, navigate-IsLinked}
use browserkit.Frames.Detach.Recursion.{detach-IsDetached}
use browserkit.Frames.Changes.{
  Change, attached, navigated, detached, activity, moved, served, rerouted,
}

pub routed-IsGrowth : (session : String) (target : Option String) → IsGrowth (routed session target)
unfolding IsGrowth routed
routed-IsGrowth session target r = (refl, λ child h. h)

pub route_to_session-IsLinked :
    (id session : String) (target : Option String) (g : FrameGraph)
    → IsLinked g.frames
    → IsLinked (route_to_session id session target g).0.frames
unfolding route_to_session
route_to_session-IsLinked id session target g linked =
    let before = attach-IsLinked id none g linked in
    elim (Option-cases (lookup id (attach id none g).frames)) [
      | inl e ↦ rw (e, route_to_session) before
      | inr (r, e) ↦
          rw (e, route_to_session)
            (modify-IsLinked id (routed session target) (attach id none g).frames
              (routed-IsGrowth session target) before)
    ]

pub route_oopif-IsLinked :
    (id : String) (parent parent_session : Option String) (session target : String) (g : FrameGraph)
    → IsLinked g.frames
    → IsLinked (route_oopif id parent parent_session session target g).0.frames
unfolding route_oopif
route_oopif-IsLinked id none parent_session session target g linked = linked
route_oopif-IsLinked id (some p) parent_session session target g linked =
    elim (Bool-cases (can_route_oopif id (some p) parent_session g)) [
      | inl e ↦
          rw (e, route_oopif)
            (route_to_session-IsLinked id session (some target) (attach id (some p) g)
              (attach-IsLinked id (some p) g linked))
      | inr e ↦ rw (e, route_oopif) linked
    ]

-- A record after the reroute has a record before it, with the same links.
pub lookup-reroute_frames :
    (session fallback id : String) (m : Frames)
    → lookup id (reroute_frames session fallback m)
      ≡ elim (lookup id m) [ none ↦ none | some r ↦ some (reroute session fallback r) ]
unfolding lookup reroute_frames
lookup-reroute_frames session fallback id [] = refl
lookup-reroute_frames session fallback id ((k, r) ∷ m) =
    ground (arith, lookup-reroute_frames session fallback id m)

pub reroute-links :
    (session fallback id : String) (r : FrameRecord) (m : Frames)
    → lookup id (reroute_frames session fallback m) ≡ some r
    → (w : FrameRecord) × (lookup id m ≡ some w) × (r.parent ≡ w.parent) × (r.children ≡ w.children)
unfolding reroute
reroute-links session fallback id r m h = elim (Option-cases (lookup id m)) [
  | inl e ↦ ground (arith, lookup-reroute_frames session fallback id m)
  | inr (w, e) ↦ (
    w,
    e,
    ground (arith, lookup-reroute_frames session fallback id m),
    ground (arith, lookup-reroute_frames session fallback id m),
  )
]

pub reroute_frames-IsLinked :
    (session fallback : String) (m : Frames)
    → IsLinked m
    → IsLinked (reroute_frames session fallback m)
unfolding IsLinked
reroute_frames-IsLinked session fallback m linked id parent_id r p hr hp hq =
    let (w, lw, ew, cw) = reroute-links session fallback id r m hr in
    let (v, lv, ev, cv) = reroute-links session fallback parent_id p m hq in
    let was = linked id parent_id w v lw (ground arith) lv in ground arith

pub activity-IsGrowth : (active : Bool) → IsGrowth (λ r. record r { route_active = active })
unfolding IsGrowth
activity-IsGrowth active r = (refl, λ child h. h)

pub Change-IsLinked : {g h : FrameGraph} → Change g h → IsLinked g.frames → IsLinked h.frames
unfolding set_route_active reroute_session
Change-IsLinked {g = g} (attached id parent) linked = attach-IsLinked id parent g linked
Change-IsLinked {g = g} (navigated id parent loader) linked =
    navigate-IsLinked id parent loader g linked
Change-IsLinked {g = g} (detached id) linked = (detach-IsDetached id g linked).linked
Change-IsLinked {g = g} (activity id active) linked =
    modify-IsLinked id (λ r. record r { route_active = active }) g.frames (activity-IsGrowth active)
      linked
Change-IsLinked {g = g} (moved id session target) linked =
    route_to_session-IsLinked id session target g linked
Change-IsLinked {g = g} (served id parent parent_session session target) linked =
    route_oopif-IsLinked id parent parent_session session target g linked
Change-IsLinked {g = g} (rerouted session fallback) linked =
    reroute_frames-IsLinked session fallback g.frames linked
