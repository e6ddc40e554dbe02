-- ===== src/Frames/Tree.antt =====
-- The frame tree that a session reports, in src/runtime/frame.rs: how `index_frame_tree` reads it
-- and how `FrameStore::merge_tree` enters it into the graph. `FrameTree` is cdpkit's; its fields
-- here are those that the code reads, and a tree without `child_frames` has an empty list of them.
pub mod Merged
use browserkit.Common.{
  ℕ, ◌+◌, Bool, true, false, not, ◌||◌, Option, none, some, List, [], ◌∷◌, String, has, add,
  string_eq,
}
use browserkit.Common.Assoc.{Assoc, insert}
use browserkit.Frames.Graph.{FrameGraph, navigate}
use browserkit.Frames.Routes.{route_to_session, set_route_active}

mutual
  pub data FrameTree : Type 0 where
    frame : (id : String) (parent_id : Option String) (loader_id : String) → FrameTrees → FrameTree

  pub data FrameTrees : Type 0 where
    none_left : FrameTrees
    next_tree : FrameTree → FrameTrees → FrameTrees

-- The node of `merge_tree` itself, without its children.
unfoldable pub merge_frame :
    String → Option String → String → String → Bool → FrameGraph → FrameGraph
merge_frame id parent loader session provisional g =
    set_route_active id (not provisional)
      (route_to_session id session none (navigate id parent loader g).0).0

-- A frame below a provisional root is provisional, and its route is not active.
unfoldable mutual
  pub merge_tree : FrameTree → String → List String → Bool → FrameGraph → FrameGraph
  merge_tree (frame id parent loader children) session roots ancestor g =
      let provisional = ancestor || has id roots in
      merge_trees children session roots provisional
        (merge_frame id parent loader session provisional g)

  pub merge_trees : FrameTrees → String → List String → Bool → FrameGraph → FrameGraph
  merge_trees none_left session roots ancestor g = g
  merge_trees (next_tree tree trees) session roots ancestor g =
      merge_trees trees session roots ancestor (merge_tree tree session roots ancestor g)

-- Each frame's tree under its id, the set of the ids, and the number of frames.
unfoldable mutual
  pub index_frame_tree :
      FrameTree → Assoc String FrameTree → List String → Assoc String FrameTree × List String × ℕ
  index_frame_tree (frame id parent loader children) index ids =
      let (index', ids', count) =
        index_frame_trees children (insert id (frame id parent loader children) index)
          (add id ids) in
      (index', ids', 1 + count)

  pub index_frame_trees :
      FrameTrees → Assoc String FrameTree → List String → Assoc String FrameTree × List String × ℕ
  index_frame_trees none_left index ids = (index, ids, 0)
  index_frame_trees (next_tree tree trees) index ids =
      let (index1, ids1, count) = index_frame_tree tree index ids in
      let (index2, ids2, others) = index_frame_trees trees index1 ids1 in
      (index2, ids2, count + others)
