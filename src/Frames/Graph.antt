-- ===== src/Frames/Graph.antt =====
-- `FrameGraph` of src/runtime/frame.rs: the tree of the frames of a page, as its events build it,
-- and the session that each frame's commands are sent through.
use browserkit.Common.{
  ℕ, zero, suc, ◌+◌, ◌%◌, ◌^◌, Bool, true, false, not, ◌||◌, Option, none, some, List, [], ◌∷◌,
  String, if◌then◌else◌, is_some, length, ◌==◌, string_eq, add, add_all, discard,
}
use browserkit.Common.Assoc.{Assoc, lookup, insert, remove, modify}

pub record FrameRecord : Type 0 where
  pub parent : Option String
  pub children : List String
  pub loader_id : Option String
  pub document_epoch : ℕ
  pub route_session_id : String
  pub route_target_id : Option String
  pub route_active : Bool

abbrev pub Frames : Type 0
Frames = Assoc String FrameRecord

pub record FrameGraph : Type 0 where
  pub main_session_id : String
  pub main_frame_id : Option String
  pub frames : Frames

unfoldable pub new : String → FrameGraph
new main = record { main_session_id = main; main_frame_id = none; frames = [] }

-- `option == Some(id)`.
abbrev pub names : Option String → String → Bool
names none id = false
names (some held) id = held == id

-- The frames that named a frame as their parent before it was known.
unfoldable pub waiting_children : String → Frames → List String
waiting_children id [] = []
waiting_children id ((child, r) ∷ m) =
    let rest = waiting_children id m in if names r.parent id then add child rest else rest

unfoldable pub fresh : String → Option String → FrameRecord
fresh session parent = record {
  parent = parent;
  children = [];
  loader_id = none;
  document_epoch = 0;
  route_session_id = session;
  route_target_id = none;
  route_active = true;
}

-- What `attach` does to the record of the frame itself.
unfoldable pub adopt : Option String → List String → FrameRecord → FrameRecord
adopt parent waiting r = record r {
  parent = elim r.parent [ none ↦ parent | some p ↦ some p ];
  children = add_all waiting r.children;
}

unfoldable pub add_child : String → FrameRecord → FrameRecord
add_child id r = record r { children = add id r.children }

-- `entry(id).or_insert_with(...)`.
unfoldable pub ensure : String → FrameRecord → Frames → Frames
ensure id r m = if is_some (lookup id m) then m else insert id r m

-- The record of the frame, made when it is new, then its link to the parent.
unfoldable pub attach_record : String → String → Option String → Frames → Frames
attach_record session id parent m =
    modify id (adopt parent (waiting_children id m)) (ensure id (fresh session parent) m)

unfoldable pub attach : String → Option String → FrameGraph → FrameGraph
attach id parent g =
    let is_new = not (is_some (lookup id g.frames)) in
    let frames = attach_record g.main_session_id id parent g.frames in
    elim parent [
      | some p ↦ record g { frames = modify p (add_child id) frames }
      | none ↦ record g {
        main_frame_id =
            if is_new || not (is_some g.main_frame_id) then some id else g.main_frame_id;
        frames = frames;
      }
    ]

-- Whether the frame had a loader, and another one.
unfoldable pub crosses : Option String → String → Bool
crosses none loader = false
crosses (some previous) loader = not (previous == loader)

unfoldable pub commit : String → FrameRecord → FrameRecord
commit loader r = record r {
  document_epoch =
      if crosses r.loader_id loader then (r.document_epoch + 1) % 2 ^ 64 else r.document_epoch;
  loader_id = some loader;
}

-- The result says whether the document was replaced.
unfoldable pub navigate : String → Option String → String → FrameGraph → FrameGraph × Bool
navigate id parent loader g =
    let attached = attach id parent g in
    (
      record attached { frames = modify id (commit loader) attached.frames },
      elim (lookup id attached.frames) [ none ↦ false | some r ↦ crosses r.loader_id loader ],
    )

unfoldable pub drop_child : String → FrameRecord → FrameRecord
drop_child id r = record r { children = discard id r.children }

-- The end of `detach`, when the children are gone.
unfoldable pub unlink : String → Option String → FrameGraph → FrameGraph
unlink id parent g = record g {
  frames = elim parent [ none ↦ g.frames | some p ↦ modify p (drop_child id) g.frames ];
  main_frame_id = if names g.main_frame_id id then none else g.main_frame_id;
}

abbrev pub without : String → FrameGraph → FrameGraph
without id g = record g { frames = remove id g.frames }

-- The loop of `detach` over the children.
unfoldable pub each : (String → FrameGraph → FrameGraph) → List String → FrameGraph → FrameGraph
each step [] g = g
each step (child ∷ children) g = each step children (step child g)

-- The recursion of `detach`, on fuel.
unfoldable pub detach_from : ℕ → String → FrameGraph → FrameGraph
detach_from zero id g = g
detach_from (suc n) id g = elim (lookup id g.frames) [
  | none ↦ g
  | some r ↦ unlink id r.parent (each (detach_from n) r.children (without id g))
]

-- Every call that finds a frame removes it first, so the number of frames is fuel enough.
unfoldable pub detach : String → FrameGraph → FrameGraph
detach id g = detach_from (length g.frames) id g
