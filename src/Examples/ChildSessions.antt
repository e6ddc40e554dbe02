-- ===== src/Examples/ChildSessions.antt =====
-- Child sessions of src/runtime/frame.rs that are attached and detached.
use browserkit.Common.{
  ℕ, ◌≡◌, ◌≢◌, refl, ap, true, false, Option, none, some, [], ◌∷◌, String, has, add, add_all,
  string_eq, if◌then◌else◌,
}
use browserkit.Common.Assoc.{lookup, insert, modify, UniqueKeys}
use browserkit.Frames.Graph.{
  new, attach, attach_record, ensure, fresh, adopt, waiting_children, add_child, navigate, commit,
  crosses,
}
use browserkit.Frames.Routes.{route_session}
use browserkit.Frames.Fallback.{IsFallback}
use browserkit.Frames.Sessions.{
  initializing, detached, ChildSessionOwnership, FrameState, begin_oopif_attach,
  activate_oopif_attach, initialize,
}
use browserkit.Frames.Sessions.Contexts.{default_context}
use browserkit.Frames.Sessions.Detaching.{
  parents_of, live_sessions, is_attached, detach_child_session,
}
use browserkit.Frames.Sessions.Detaching.Retired.{retired, detach_child_session-sessions}
use browserkit.Frames.Sessions.Detaching.Rerouted.{detach_child_session-routes}
use browserkit.Frames.Sessions.Commit.{commit_oopif}
use browserkit.Frames.Sessions.Tombstones.{HasTombstone, stay, step, activates}
use browserkit.Frames.Sessions.Tombstones.Stuck.{tombstone-blocks, release_commit-HasTombstone}
use browserkit.Examples.Frames.{page_graph, ad_tree, route_oopif-taken}

-- The advertisement is being attached under the first token; a frame in it was attached before.
abbrev ad_ownership : ChildSessionOwnership String
ad_ownership = record {
  root_frame_id = "ad";
  parent_session_id = "page";
  reducer_cancel = "cancel-ad";
  phase = initializing 1;
}

abbrev attaching : FrameState String String
attaching = record {
  graph = page_graph;
  sessions = [];
  child_sessions = ("ad-session", ad_ownership) ∷ [];
  next_attach_token = 1;
  execution_contexts = [];
  cancelled = [];
}

attaching-UniqueKeys : UniqueKeys attaching.child_sessions
unfolding lookup
attaching-UniqueKeys = (refl, tt)

ad-is_attached : is_attached "ad-session" attaching ≡ true
unfolding is_attached lookup
ad-is_attached = refl

page-is_attached : is_attached attaching.graph.main_session_id attaching ≡ false
unfolding is_attached lookup new attach attach_record ensure fresh adopt waiting_children navigate
page-is_attached = refl

ad-held : lookup "ad-session" attaching.child_sessions ≡ some ad_ownership
unfolding lookup
ad-held = refl

abbrev ad_session : String
ad_session = "ad-session"

abbrev page_session : String
page_session = "page"

detach_child_session-sessions_example :
    (lookup "ad-session" (detach_child_session ad_session attaching).0.sessions ≡ (
      if has ad_session (detach_child_session ad_session attaching).1.session_ids
      then none
      else lookup "ad-session" attaching.sessions))
    × (default_context "ad-session" "ad"
          (detach_child_session ad_session attaching).0.execution_contexts
        ≡ (if has ad_session (detach_child_session ad_session attaching).1.session_ids
            then none
            else default_context "ad-session" "ad" attaching.execution_contexts))
    × (lookup "ad-session" (detach_child_session ad_session attaching).0.child_sessions ≡ (
        if has ad_session (detach_child_session ad_session attaching).1.session_ids
        then retired (lookup "ad-session" attaching.child_sessions)
        else lookup "ad-session" attaching.child_sessions))
detach_child_session-sessions_example =
    detach_child_session-sessions ad_session ad_session "ad" attaching ad-is_attached

-- What a build without debug assertions makes of it.
abbrev committed : FrameState String String
committed =
    (commit_oopif false "ad-session" 1 "handle" "ad" (some "child") (some "page") "ad-target"
      ad_tree [] attaching).0

banner-route : route_session "ad" page_graph ≡ some "page"
unfolding route_session lookup insert modify new attach attach_record ensure fresh adopt
    waiting_children add_child navigate commit crosses has add add_all
banner-route = refl

detach_child_session-routes_example :
    (found : String) × (route_session "ad" (detach_child_session ad_session attaching).0.graph
      ≡ some found)
    × (has found (detach_child_session ad_session attaching).1.session_ids ≡ false)
    × (if has page_session (detach_child_session ad_session attaching).1.session_ids
        then IsFallback
            (parents_of attaching.child_sessions)
            (live_sessions attaching)
            (detach_child_session ad_session attaching).1.session_ids
            page_session
            attaching.graph.main_session_id
            found
        else found ≡ page_session)
detach_child_session-routes_example =
    detach_child_session-routes ad_session "ad" page_session attaching attaching-UniqueKeys
      ad-is_attached page-is_attached banner-route

abbrev given_up : FrameState String String
given_up = record attaching {
  child_sessions = ("ad-session", record ad_ownership { phase = detached 1 }) ∷ [];
}

given_up-HasTombstone : HasTombstone "ad-session" 1 given_up
unfolding HasTombstone lookup
given_up-HasTombstone = (record ad_ownership { phase = detached 1 }, refl, refl)

tombstone-blocks_example :
    ((root : String) (frame parent : Option String) (cancel c : String) (t : ℕ)
      → (begin_oopif_attach "ad-session" root frame parent cancel
          (activate_oopif_attach "ad-session" 1 given_up).0).1
        ≢ initialize t c)
    × ((t : ℕ)
        → (activate_oopif_attach "ad-session" t (activate_oopif_attach "ad-session" 1 given_up).0).1
          ≡ false)
tombstone-blocks_example =
    tombstone-blocks "ad-session" 1 given_up (activate_oopif_attach "ad-session" 1 given_up).0
      given_up-HasTombstone (step stay (activates "ad-session" 1))

release_commit-outcome :
    (commit_oopif false "ad-session" 1 "handle" "ad"
      (some "child")
      (some "page")
      "ad-target"
      ad_tree
      []
      attaching).1
    ≡ some (some "page")
unfolding commit_oopif
release_commit-outcome = rw (route_oopif-taken, commit_oopif) (ap some banner-route)

release_commit-done :
    commit_oopif false "ad-session" 1 "handle" "ad"
      (some "child")
      (some "page")
      "ad-target"
      ad_tree
      []
      attaching
    ≡ (committed, some (some "page"))
release_commit-done = ap (λ x. (committed, x)) release_commit-outcome

release_commit-HasTombstone_example :
    HasTombstone "ad-session" 1 (detach_child_session ad_session committed).0
release_commit-HasTombstone_example =
    release_commit-HasTombstone ad_session 1 "handle" "ad" (some "child") (some "page")
      (some "page") "ad-target" ad_tree [] ad_ownership attaching committed ad-held refl
      release_commit-done
