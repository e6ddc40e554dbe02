-- ===== src/Frames/Routes.antt =====
-- The methods of `FrameGraph` of src/runtime/frame.rs that read a frame, and those that choose the
-- session its commands are sent through.
use browserkit.Common.{
  ℕ, Bool, true, false, not, Option, none, some, List, [], ◌∷◌, String, if◌then◌else◌, ◌==◌,
  string_eq,
}
use browserkit.Common.Assoc.{lookup, modify}
use browserkit.Common.Sort.{sort_by}
use browserkit.Lifecycle.Version.{LifecycleSnapshot}
use browserkit.Frames.Graph.{FrameRecord, Frames, FrameGraph, names, attach}

-- `FrameSnapshot` has the fields of `LifecycleSnapshot`.
unfoldable pub snapshot : String → ℕ → FrameGraph → Option LifecycleSnapshot
snapshot id generation g = elim (lookup id g.frames) [
  | none ↦ none
  | some r ↦ some (record { page_generation = generation; document_epoch = r.document_epoch })
]

unfoldable pub children : String → FrameGraph → List String
children id g = elim (lookup id g.frames) [ none ↦ [] | some r ↦ sort_by (λ c. c) r.children ]

unfoldable pub parent : String → FrameGraph → Option String
parent id g = elim (lookup id g.frames) [ none ↦ none | some r ↦ r.parent ]

unfoldable pub loader_id : String → FrameGraph → Option String
loader_id id g = elim (lookup id g.frames) [ none ↦ none | some r ↦ r.loader_id ]

unfoldable pub route_session : String → FrameGraph → Option String
route_session id g = elim (lookup id g.frames) [ none ↦ none | some r ↦ some r.route_session_id ]

unfoldable pub set_route_active : String → Bool → FrameGraph → FrameGraph
set_route_active id active g = record g {
  frames = modify id (λ r. record r { route_active = active }) g.frames;
}

unfoldable pub is_route_active : String → FrameGraph → Bool
is_route_active id g = elim (lookup id g.frames) [ none ↦ false | some r ↦ r.route_active ]

unfoldable pub active_of : Frames → List String
active_of [] = []
active_of ((id, r) ∷ m) = let rest = active_of m in if r.route_active then id ∷ rest else rest

unfoldable pub active_ids : FrameGraph → List String
active_ids g = sort_by (λ id. id) (active_of g.frames)

unfoldable pub routed : String → Option String → FrameRecord → FrameRecord
routed session target r = record r { route_session_id = session; route_target_id = target }

-- The result is the session before.
unfoldable pub route_to_session :
    String → String → Option String → FrameGraph → FrameGraph × Option String
route_to_session id session target g =
    let attached = attach id none g in
    elim (lookup id attached.frames) [
      | none ↦ (attached, none)
      | some r ↦ (
        record attached { frames = modify id (routed session target) attached.frames },
        some r.route_session_id,
      )
    ]

-- `option.is_some_and(|held| held != id)`.
abbrev pub names_other : Option String → String → Bool
names_other none id = false
names_other (some held) id = not (held == id)

unfoldable pub can_route_oopif : String → Option String → Option String → FrameGraph → Bool
can_route_oopif id none parent_session g = false
can_route_oopif id (some parent_id) parent_session g = elim (lookup parent_id g.frames) [
  | none ↦ false
  | some p ↦
      if not (names parent_session p.route_session_id) then false else elim (lookup id g.frames) [
        | none ↦ true
        | some r ↦
            if names_other r.parent parent_id
            then false
            else r.route_session_id == p.route_session_id
      ]
]

unfoldable pub route_oopif :
    String → Option String → Option String → String → String → FrameGraph → FrameGraph × Bool
route_oopif id none parent_session session target g = (g, false)
route_oopif id (some parent_id) parent_session session target g =
    if can_route_oopif id (some parent_id) parent_session g
    then ((route_to_session id session (some target) (attach id (some parent_id) g)).0, true)
    else (g, false)

unfoldable pub reroute : String → String → FrameRecord → FrameRecord
reroute session fallback r =
    if r.route_session_id == session
    then record r { route_session_id = fallback; route_target_id = none }
    else r

unfoldable pub reroute_frames : String → String → Frames → Frames
reroute_frames session fallback [] = []
reroute_frames session fallback ((id, r) ∷ m) =
    (id, reroute session fallback r) ∷ reroute_frames session fallback m

unfoldable pub reroute_session : String → String → FrameGraph → FrameGraph
reroute_session session fallback g = record g { frames = reroute_frames session fallback g.frames }
