-- ===== src/Frames/Sessions/Detaching.antt =====
-- `FrameState::detach_child_session` of src/runtime/frame.rs: a child session goes away with the
-- sessions below it, and their frames are served from above.
pub mod Retired
pub mod Rerouted
use browserkit.Common.{
  ◌≡◌, Bool, true, false, not, Option, none, some, List, [], ◌∷◌, ◌++◌, map, String, if◌then◌else◌,
  ◌==◌, string_eq, add,
}
use browserkit.Common.Assoc.{Assoc, lookup, remove, modify}
use browserkit.Frames.Graph.{Frames, FrameGraph}
use browserkit.Frames.Routes.{route_session, reroute_session}
use browserkit.Frames.Subtree.{Parents, collect_session_subtree}
use browserkit.Frames.Fallback.{resolve_live_parent}
use browserkit.Frames.Sessions.{
  ChildSessionPhase, initializing, active, detached, is_detached, ChildSessionOwnership, FrameState,
  with_phase,
}
use browserkit.Frames.Sessions.Contexts.{clear_contexts}

pub record FrameRouteChange : Type 0 where
  pub frame_id : String
  pub previous_session_id : String
  pub session_id : String

pub record DetachedChildSessions : Type 0 where
  pub route_changes : List FrameRouteChange
  pub session_ids : List String

-- `parent_by_session`: the sessions that are not detached already.
unfoldable pub parents_of : {C : Type 0} → Assoc String (ChildSessionOwnership C) → Parents
parents_of [] = []
parents_of ((session, o) ∷ m) =
    let rest = parents_of m in
    if is_detached o.phase then rest else (session, o.parent_session_id) ∷ rest

-- The loop that moves the routes, with what `resolve_live_parent` is asked.
unfoldable pub reroute_all :
    Parents → List String → List String → List String → FrameGraph → FrameGraph
reroute_all parents live removing [] g = g
reroute_all parents live removing (session ∷ sessions) g =
    reroute_all parents live removing sessions (
      reroute_session session (resolve_live_parent parents live removing session g.main_session_id)
        g)

-- The frames whose route differs, of a graph with the same frames in the same order.
unfoldable pub changes : FrameGraph → Frames → List FrameRouteChange
changes before [] = []
changes before ((id, r) ∷ m) =
    let rest = changes before m in
    elim (route_session id before) [
      | none ↦ rest
      | some previous ↦
          if previous == r.route_session_id
          then rest
          else record {
            frame_id = id;
            previous_session_id = previous;
            session_id = r.route_session_id;
          }
            ∷ rest
    ]

module _ {C S : Type 0} where
  -- The phase of a session that is removed.
  unfoldable pub retire_child : String → FrameState C S → FrameState C S
  retire_child session st = elim (lookup session st.child_sessions) [
    | none ↦ st
    | some o ↦ elim o.phase [
      | initializing token ↦ record st {
        cancelled = st.cancelled ++ o.reducer_cancel ∷ [];
        child_sessions = modify session (with_phase (detached token)) st.child_sessions;
      }
      | active token ↦ record st {
        cancelled = st.cancelled ++ o.reducer_cancel ∷ [];
        child_sessions = remove session st.child_sessions;
      }
      | detached token ↦ st
    ]
  ]

  unfoldable pub retire : String → FrameState C S → FrameState C S
  retire session st = retire_child session (record st {
    sessions = remove session st.sessions;
    execution_contexts = clear_contexts session st.execution_contexts;
  })

  unfoldable pub retire_all : List String → FrameState C S → FrameState C S
  retire_all [] st = st
  retire_all (session ∷ sessions) st = retire_all sessions (retire session st)

  -- The session, and those that were opened from it and are not detached.
  unfoldable pub subtree_of : String → FrameState C S → List String
  subtree_of session st = collect_session_subtree (parents_of st.child_sessions) session

  unfoldable pub live_sessions : FrameState C S → List String
  live_sessions st = add st.graph.main_session_id (map (λ e. e.0) st.sessions)

  unfoldable pub rerouted_graph : String → FrameState C S → FrameGraph
  rerouted_graph session st =
      let subtree = subtree_of session st in
      reroute_all (parents_of st.child_sessions) (live_sessions st) subtree subtree st.graph

  unfoldable pub is_attached : String → FrameState C S → Bool
  is_attached session st = elim (lookup session st.child_sessions) [
    | none ↦ false
    | some o ↦ not (is_detached o.phase)
  ]

  unfoldable pub detach_child_session :
      String → FrameState C S → FrameState C S × DetachedChildSessions
  detach_child_session session st =
      if not (is_attached session st)
      then (st, record { route_changes = []; session_ids = [] })
      else let graph = rerouted_graph session st in
        let subtree = subtree_of session st in
        (
          retire_all subtree (record st { graph = graph }),
          record { route_changes = changes st.graph graph.frames; session_ids = subtree },
        )
