-- ===== src/Examples/Frames.antt =====
-- Frames and child sessions of src/runtime/frame.rs that come and go.
use browserkit.Common.{
  ◌≡◌, refl, true, false, none, some, [], ◌∷◌, String, has, add, add_all, string_eq, if◌then◌else◌,
  ◌==◌, ◌↔◌, ◌&&◌, ◌≢◌, String,
}
use browserkit.Common.Assoc.{lookup, insert, modify, UniqueKeys}
use browserkit.Frames.Graph.{
  FrameGraph, new, attach, attach_record, ensure, fresh, adopt, waiting_children, add_child,
  navigate, commit, crosses, detach,
}
use browserkit.Frames.Routes.{
  route_session, can_route_oopif, route_oopif, snapshot, parent, loader_id,
}
use browserkit.Frames.Links.{IsLinked}
use browserkit.Frames.Changes.{IsReached, start, more, navigated}
use browserkit.Frames.Changes.MainFrame.{IsMainLive}
use browserkit.Frames.Changes.Reached.{IsReached-links}
use browserkit.Frames.Detach.{IsDetached}
use browserkit.Frames.Detach.Recursion.{detach-IsDetached}
use browserkit.Frames.Routing.{navigate-snapshot}
use browserkit.Frames.Routing.Oopif.{route_oopif-effect}
use browserkit.Frames.Subtree.{Parents, collect_session_subtree, IsUnder}
use browserkit.Frames.Subtree.Collect.{collect_session_subtree-IsUnder}
use browserkit.Frames.Fallback.{IsFallback, resolve_live_parent, resolve_live_parent-IsFallback}
use browserkit.Frames.Tree.{
  FrameTree, frame, none_left, next_tree, index_frame_tree, index_frame_trees,
}

abbrev child_frame : String
child_frame = "child"

abbrev second_loader : String
second_loader = "child-2"

abbrev leaf_session : String
leaf_session = "leaf"

-- A page with a child frame, and an advertisement in it.
abbrev pub page_graph : FrameGraph
page_graph =
    (navigate "ad" (some "child") "ad-1" (
      (navigate "child" (some "main") "child-1"
        ((navigate "main" none "main-1" (new "page")).0)).0)).0

page_graph-IsReached : IsReached page_graph
page_graph-IsReached =
    more
      (more (more (start "page") (navigated "main" none "main-1"))
        (navigated "child" (some "main") "child-1"))
      (navigated "ad" (some "child") "ad-1")

IsReached-links_example : IsLinked page_graph.frames × IsMainLive page_graph
IsReached-links_example = IsReached-links page_graph-IsReached

detach-IsDetached_example : IsDetached "child" page_graph (detach "child" page_graph)
detach-IsDetached_example = detach-IsDetached "child" page_graph IsReached-links_example.0

page_graph-snapshot :
    snapshot "child" 1 page_graph ≡ some (record { page_generation = 1; document_epoch = 0 })
unfolding snapshot lookup insert modify new attach attach_record ensure fresh adopt waiting_children
    add_child navigate commit crosses has add add_all
page_graph-snapshot = refl

navigate-snapshot_example :
    (snapshot "child" 1 (navigate "child" (some "main") "child-2" page_graph).0
      ≡ some (
          if (child_frame == child_frame) && (navigate "child" (some "main") "child-2" page_graph).1
          then record { page_generation = 1; document_epoch = 1 }
          else record { page_generation = 1; document_epoch = 0 }))
    × (((navigate "child" (some "main") "child-2" page_graph).1 ≡ true)
        ↔ ((old : String) × (loader_id "child" page_graph ≡ some old) × (old ≢ second_loader)))
navigate-snapshot_example =
    navigate-snapshot "child" "child" "child-2" (some "main") 1 page_graph
      (record { page_generation = 1; document_epoch = 0 }) page_graph-snapshot

pub route_oopif-taken :
    (route_oopif "ad" (some "child") (some "page") "ad-session" "ad-target" page_graph).1 ≡ true
unfolding route_oopif can_route_oopif lookup insert modify new attach attach_record ensure fresh
    adopt waiting_children add_child navigate commit crosses has add add_all
route_oopif-taken = refl

route_oopif-effect_example :
    (parent_id : String) × (some "child" ≡ some parent_id)
    × (route_session parent_id page_graph ≡ some "page")
    × (parent "ad"
          (route_oopif "ad" (some "child") (some "page") "ad-session" "ad-target" page_graph).0
        ≡ some parent_id)
    × (route_session "ad"
          (route_oopif "ad" (some "child") (some "page") "ad-session" "ad-target" page_graph).0
        ≡ some "ad-session")
    × ((x : String)
        → "ad" == x ≡ false
        → route_session x
            (route_oopif "ad" (some "child") (some "page") "ad-session" "ad-target" page_graph).0
          ≡ route_session x page_graph)
route_oopif-effect_example =
    route_oopif-effect "ad" (some "child") (some "page") "ad-session" "ad-target" page_graph
      route_oopif-taken

-- Two sessions below the first, and one of another family.
abbrev session_parents : Parents
session_parents = ("nested", "ad") ∷ ("leaf", "nested") ∷ ("other", "page") ∷ []

session_parents-UniqueKeys : UniqueKeys session_parents
unfolding lookup
session_parents-UniqueKeys = (refl, (refl, (refl, tt)))

collect_session_subtree-IsUnder_example :
    (has "leaf" (collect_session_subtree session_parents "ad") ≡ true)
    ↔ IsUnder session_parents "ad" "leaf"
collect_session_subtree-IsUnder_example =
    collect_session_subtree-IsUnder session_parents "ad" "leaf" session_parents-UniqueKeys

leaf-leaves : has leaf_session ("nested" ∷ leaf_session ∷ []) ≡ true
unfolding has
leaf-leaves = refl

resolve_live_parent-IsFallback_example :
    IsFallback session_parents
      ("page" ∷ "ad" ∷ "nested" ∷ [])
      ("nested" ∷ "leaf" ∷ [])
      "leaf"
      "page"
      (resolve_live_parent session_parents
        ("page" ∷ "ad" ∷ "nested" ∷ [])
        ("nested" ∷ "leaf" ∷ [])
        "leaf"
        "page")
resolve_live_parent-IsFallback_example =
    resolve_live_parent-IsFallback session_parents ("page" ∷ "ad" ∷ "nested" ∷ [])
      ("nested" ∷ "leaf" ∷ []) "leaf" "page" leaf-leaves

abbrev pub ad_tree : FrameTree
ad_tree =
    frame "ad" (some "child") "ad-2"
      (next_tree (frame "banner" (some "ad") "banner-1" none_left) none_left)

banner-listed : has "banner" (index_frame_tree ad_tree [] []).1 ≡ true
unfolding has add index_frame_tree index_frame_trees
banner-listed = refl
