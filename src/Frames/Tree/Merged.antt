-- ===== src/Frames/Tree/Merged.antt =====
-- What `FrameStore::merge_tree` of src/runtime/frame.rs does to the routes.
use browserkit.Common.{
  ◌≡◌, refl, subst, ◌∙◌, ◌⊎◌, inl, inr, Bool, true, false, not, ◌||◌, Option, none, some, List, [],
  String, Bool-cases, Option-cases, ◌==◌, beq_refl, string_eq, arith, has, add, has-add,
}
use browserkit.Common.Assoc.{Assoc, insert, lookup, modify, lookup-modify}
use browserkit.Frames.Graph.{FrameRecord, FrameGraph, attach, navigate, commit}
use browserkit.Frames.Routes.{route_session, routed, route_to_session, set_route_active}
use browserkit.Frames.Changes.MainFrame.{contains_key-attach}
use browserkit.Frames.Routing.{route_session-attach}
use browserkit.Frames.Routing.Oopif.{route_session-route_to_session}
use browserkit.Frames.Tree.{
  FrameTree, FrameTrees, frame, none_left, next_tree, merge_frame, merge_tree, merge_trees,
  index_frame_tree, index_frame_trees,
}

route_to_session_self :
    (id session : String) (target : Option String) (g : FrameGraph)
    → route_session id (route_to_session id session target g).0 ≡ some session
unfolding route_session route_to_session routed
route_to_session_self id session target g =
    let there = contains_key-attach id id none g (inr refl) in
    elim (Option-cases (lookup id (attach id none g).frames)) [
      | inl e ↦ ground arith
      | inr (r, e) ↦ ground (
        arith,
        lookup-modify id id (routed session target) (attach id none g).frames,
        beq_refl id,
      )
    ]

-- A change of a record that keeps the route.
route_session-modify :
    (k x : String) (f : FrameRecord → FrameRecord) (g : FrameGraph)
    → ((r : FrameRecord) → (f r).route_session_id ≡ r.route_session_id)
    → route_session x (record g { frames = modify k f g.frames }) ≡ route_session x g
unfolding route_session
route_session-modify k x f g same = elim (Option-cases (lookup x g.frames)) [
  | inl e ↦ ground (arith, lookup-modify k x f g.frames)
  | inr (r, e) ↦ ground (arith, lookup-modify k x f g.frames, same r)
]

merge_frame-route :
    (id : String) (parent : Option String) (loader session : String) (provisional : Bool)
    (x : String) (g : FrameGraph)
    → (route_session x g ≡ some session) ⊎ (id ≡ x)
    → route_session x (merge_frame id parent loader session provisional g) ≡ some session
unfolding merge_frame set_route_active navigate commit
merge_frame-route id parent loader session provisional x g h =
    let moved = route_to_session id session none (navigate id parent loader g).0 in
    route_session-modify id x (λ r. record r { route_active = not provisional }) moved.0 (λ r. refl)
    ∙ (elim (Bool-cases (id == x)) [
      | inl e ↦
          subst (λ y. route_session y moved.0 ≡ some session) ((string_eq.beq_iff id x).0 e)
            (route_to_session_self id session none (navigate id parent loader g).0)
      | inr e ↦
          route_session-route_to_session id x session none (navigate id parent loader g).0 e
          ∙ route_session-modify id x (commit loader) (attach id parent g) (λ r. refl)
          ∙ route_session-attach id x parent g e
          ∙ ground (arith, string_eq.beq_iff id x)
    ])

-- A frame that the tree adds to a set of ids, or whose route is the session's already.
mutual
  unfolding merge_tree merge_trees index_frame_tree index_frame_trees

  merge_tree-route :
      (tree : FrameTree) (session : String) (roots : List String) (ancestor : Bool)
      (index : Assoc String FrameTree) (ids : List String) (x : String) (g : FrameGraph)
      → has x (index_frame_tree tree index ids).1 ≡ true
      → (has x ids ≡ false) ⊎ (route_session x g ≡ some session)
      → route_session x (merge_tree tree session roots ancestor g) ≡ some session
  merge_tree-route (frame id parent loader children) session roots ancestor index ids x g h before =
      let provisional = ancestor || has id roots in
      let merged = merge_frame id parent loader session provisional g in
      let next : (has x (add id ids) ≡ false) ⊎ (route_session x merged ≡ some session) =
        elim (Bool-cases (id == x)) [
          | inl e ↦ inr (
              merge_frame-route id parent loader session provisional x g
                (inr ((string_eq.beq_iff id x).0 e)))
          | inr e ↦ elim before [
            | inl out ↦ inl (ground (arith, has-add id x ids))
            | inr route ↦
                inr (merge_frame-route id parent loader session provisional x g (inl route))
          ]
        ] in
      merge_trees-route children session roots provisional
        (insert id (frame id parent loader children) index) (add id ids) x merged h next

  merge_trees-route :
      (trees : FrameTrees) (session : String) (roots : List String) (ancestor : Bool)
      (index : Assoc String FrameTree) (ids : List String) (x : String) (g : FrameGraph)
      → has x (index_frame_trees trees index ids).1 ≡ true
      → (has x ids ≡ false) ⊎ (route_session x g ≡ some session)
      → route_session x (merge_trees trees session roots ancestor g) ≡ some session
  merge_trees-route none_left session roots ancestor index ids x g h (inl out) = cc
  merge_trees-route none_left session roots ancestor index ids x g h (inr route) = route
  merge_trees-route (next_tree tree trees) session roots ancestor index ids x g h before =
      let (index1, ids1, count) = index_frame_tree tree index ids in
      let merged = merge_tree tree session roots ancestor g in
      let next : (has x ids1 ≡ false) ⊎ (route_session x merged ≡ some session) =
        elim (Bool-cases (has x ids1)) [
          | inl into ↦ inr (merge_tree-route tree session roots ancestor index ids x g into before)
          | inr out ↦ inl out
        ] in
      merge_trees-route trees session roots ancestor index1 ids1 x merged h next

-- Each frame that the index of a tree lists is served by the session, when the tree is merged into
-- the graph for that session.
pub merge_tree-routes :
    (tree : FrameTree) (session : String) (roots : List String) (ancestor : Bool) (x : String)
    (g : FrameGraph)
    → has x (index_frame_tree tree [] []).1 ≡ true
    → route_session x (merge_tree tree session roots ancestor g) ≡ some session
unfolding has
merge_tree-routes tree session roots ancestor x g h =
    merge_tree-route tree session roots ancestor [] [] x g h (inl refl)
