-- ===== src/Frames/Sessions/Commit.antt =====
-- The commit of `FrameStore::initialize_oopif` of src/runtime/frame.rs, under the lock of the
-- state: the new session takes over its frame.
use browserkit.Common.{
  ℕ, ◌≡◌, inl, inr, Bool, true, false, Option, none, some, List, String, if◌then◌else◌, Bool-cases,
  beq_refl, string_eq, arith,
}
use browserkit.Common.Assoc.{lookup, insert, lookup-modify}
use browserkit.Frames.Graph.{FrameGraph}
use browserkit.Frames.Routes.{route_session, route_to_session, route_oopif}
use browserkit.Frames.Tree.{FrameTree, merge_tree}
use browserkit.Frames.Sessions.{
  active, detached, initializes, ChildSessionOwnership, FrameState, with_phase,
  activate_oopif_attach, abandon_oopif_attach,
}

-- The graph after the route is taken: the tree of the session, then the route of its root.
unfoldable pub committed_graph :
    String → String → String → FrameTree → List String → FrameGraph → FrameGraph
committed_graph frame session target tree roots g =
    (route_to_session frame session (some target) (merge_tree tree session roots false g)).0

module _ {C S : Type 0} where
  -- `debug_assert!(state.activate_oopif_attach(...))`: the argument is evaluated only in a build
  -- with debug assertions.
  unfoldable pub assert_activated : Bool → String → ℕ → FrameState C S → FrameState C S
  assert_activated debug_assertions session token st =
      if debug_assertions then (activate_oopif_attach session token st).0 else st

  -- `none` says that the route is not free; else the route before, when the frame had one.
  unfoldable pub commit_oopif :
      Bool
      → String
      → ℕ
      → S
      → String
      → Option String
      → Option String
      → String
      → FrameTree
      → List String
      → FrameState C S
      → FrameState C S × Option (Option String)
  commit_oopif debug_assertions session token handle frame parent parent_session target tree roots
        st =
      let previous = route_session frame st.graph in
      let (graph, routed) = route_oopif frame parent parent_session session target st.graph in
      if routed
      then (
        assert_activated debug_assertions session token (record st {
          graph = committed_graph frame session target tree roots graph;
          sessions = insert session handle st.sessions;
        }),
        some previous,
      )
      else ((abandon_oopif_attach session token st).0, none)

  activate-phase :
      (session : String) (token : ℕ) (o : ChildSessionOwnership C) (st : FrameState C S)
      → lookup session st.child_sessions ≡ some o
      → initializes o.phase token ≡ true
      → lookup session (activate_oopif_attach session token st).0.child_sessions
        ≡ some (with_phase (active token) o)
  unfolding activate_oopif_attach
  activate-phase session token o st there ready = ground (
    arith,
    lookup-modify session session (with_phase (active token)) st.child_sessions,
    beq_refl session,
  )

  abandon-phase :
      (session : String) (token : ℕ) (o : ChildSessionOwnership C) (st : FrameState C S)
      → lookup session st.child_sessions ≡ some o
      → initializes o.phase token ≡ true
      → lookup session (abandon_oopif_attach session token st).0.child_sessions
        ≡ some (with_phase (detached token) o)
  unfolding abandon_oopif_attach
  abandon-phase session token o st there ready = ground (
    arith,
    lookup-modify session session (with_phase (detached token)) st.child_sessions,
    beq_refl session,
  )

  -- What a commit makes of the ownership of a session that is being attached under the token: when
  -- the route is free, it is active in a build with debug assertions and is left as it was in
  -- another one; when the route is not free, a tombstone.
  pub commit_oopif-phase :
      (debug_assertions : Bool) (session : String) (token : ℕ) (handle : S) (frame : String)
      (parent parent_session : Option String) (target : String) (tree : FrameTree)
      (roots : List String) (o : ChildSessionOwnership C) (st : FrameState C S)
      → lookup session st.child_sessions ≡ some o
      → initializes o.phase token ≡ true
      → let (after, outcome) =
          commit_oopif debug_assertions session token handle frame parent parent_session target tree
            roots st in
        lookup session after.child_sessions
        ≡ some (elim outcome [
          | none ↦ with_phase (detached token) o
          | some previous ↦ if debug_assertions then with_phase (active token) o else o
        ])
  unfolding commit_oopif assert_activated
  commit_oopif-phase debug_assertions session token handle frame parent parent_session target tree
        roots o st there ready =
      let routed = route_oopif frame parent parent_session session target st.graph in
      let moved = record st {
        graph = committed_graph frame session target tree roots routed.0;
        sessions = insert session handle st.sessions;
      } in
      elim (Bool-cases routed.1) [
        | inl e ↦ elim (Bool-cases debug_assertions) [
          | inl d ↦
              rw (e, commit_oopif, d, assert_activated)
                (activate-phase session token o moved there ready)
          | inr d ↦ rw (e, commit_oopif, d, assert_activated) there
        ]
        | inr e ↦ rw (e, commit_oopif) (abandon-phase session token o st there ready)
      ]
