-- ===== src/Frames/Changes/MainFrame.antt =====
-- Each change of `FrameGraph` of src/runtime/frame.rs and the record of the main frame.
use browserkit.Common.{
  ◌≡◌, ◌⊎◌, inl, inr, true, Option, none, some, String, Bool-cases, Option-cases, beq_refl,
  string_eq, arith,
}
use browserkit.Common.Assoc.{lookup, modify, contains_key, lookup-modify}
use browserkit.Frames.Graph.{
  FrameRecord, FrameGraph, attach, attach_record, add_child, navigate, commit,
}
use browserkit.Frames.Routes.{
  set_route_active, route_to_session, can_route_oopif, route_oopif, reroute_session, routed,
}
use browserkit.Frames.Links.{IsLinked}
use browserkit.Frames.Links.Attached.{lookup-attach_record}
use browserkit.Frames.Detach.Recursion.{detach-IsDetached}
use browserkit.Frames.Changes.{
  Change, attached, navigated, detached, activity, moved, served, rerouted,
}
use browserkit.Frames.Changes.Links.{lookup-reroute_frames}

-- The main frame, when the page has one, has a record.
unfoldable pub IsMainLive : FrameGraph → Type 0
IsMainLive g = (id : String) → g.main_frame_id ≡ some id → contains_key id g.frames ≡ true

pub contains_key-attach :
    (id x : String) (parent : Option String) (g : FrameGraph)
    → (contains_key x g.frames ≡ true) ⊎ (id ≡ x)
    → contains_key x (attach id parent g).frames ≡ true
unfolding attach
contains_key-attach id x none g h =
    ground (arith, lookup-attach_record g.main_session_id id x none g.frames, beq_refl id)
contains_key-attach id x (some p) g h = ground (
  arith,
  lookup-attach_record g.main_session_id id x (some p) g.frames,
  lookup-modify p x (add_child id) (attach_record g.main_session_id id (some p) g.frames),
  beq_refl id,
)

pub attach-main :
    (id x : String) (parent : Option String) (g : FrameGraph)
    → (attach id parent g).main_frame_id ≡ some x
    → (g.main_frame_id ≡ some x) ⊎ (id ≡ x)
unfolding attach
attach-main id x none g h = ground arith
attach-main id x (some p) g h = inl h

pub attach-IsMainLive :
    (id : String) (parent : Option String) (g : FrameGraph)
    → IsMainLive g
    → IsMainLive (attach id parent g)
unfolding IsMainLive
attach-IsMainLive id parent g live x h = elim (attach-main id x parent g h) [
  | inl e ↦ contains_key-attach id x parent g (inl (live x e))
  | inr e ↦ contains_key-attach id x parent g (inr e)
]

pub modify-IsMainLive :
    (k : String) (f : FrameRecord → FrameRecord) (g : FrameGraph)
    → IsMainLive g
    → IsMainLive (record g { frames = modify k f g.frames })
unfolding IsMainLive
modify-IsMainLive k f g live x h = ground (arith, live x h, lookup-modify k x f g.frames)

pub route_to_session-IsMainLive :
    (id session : String) (target : Option String) (g : FrameGraph)
    → IsMainLive g
    → IsMainLive (route_to_session id session target g).0
unfolding route_to_session
route_to_session-IsMainLive id session target g live =
    let before = attach-IsMainLive id none g live in
    elim (Option-cases (lookup id (attach id none g).frames)) [
      | inl e ↦ rw (e, route_to_session) before
      | inr (r, e) ↦
          rw (e, route_to_session)
            (modify-IsMainLive id (routed session target) (attach id none g) before)
    ]

pub route_oopif-IsMainLive :
    (id : String) (parent parent_session : Option String) (session target : String) (g : FrameGraph)
    → IsMainLive g
    → IsMainLive (route_oopif id parent parent_session session target g).0
unfolding route_oopif
route_oopif-IsMainLive id none parent_session session target g live = live
route_oopif-IsMainLive id (some p) parent_session session target g live =
    elim (Bool-cases (can_route_oopif id (some p) parent_session g)) [
      | inl e ↦
          rw (e, route_oopif)
            (route_to_session-IsMainLive id session (some target) (attach id (some p) g)
              (attach-IsMainLive id (some p) g live))
      | inr e ↦ rw (e, route_oopif) live
    ]

pub Change-IsMainLive :
    {g h : FrameGraph} → Change g h → IsLinked g.frames → IsMainLive g → IsMainLive h
unfolding set_route_active reroute_session navigate IsMainLive
Change-IsMainLive {g = g} (attached id parent) linked live = attach-IsMainLive id parent g live
Change-IsMainLive {g = g} (navigated id parent loader) linked live =
    modify-IsMainLive id (commit loader) (attach id parent g) (attach-IsMainLive id parent g live)
Change-IsMainLive {g = g} (detached id) linked live =
    λ x h. let (was, kept) = (detach-IsDetached id g linked).trimmed.main x h in kept (live x was)
Change-IsMainLive {g = g} (activity id active) linked live =
    modify-IsMainLive id (λ r. record r { route_active = active }) g live
Change-IsMainLive {g = g} (moved id session target) linked live =
    route_to_session-IsMainLive id session target g live
Change-IsMainLive {g = g} (served id parent parent_session session target) linked live =
    route_oopif-IsMainLive id parent parent_session session target g live
Change-IsMainLive {g = g} (rerouted session fallback) linked live =
    λ x h. ground (arith, live x h, lookup-reroute_frames session fallback x g.frames)
