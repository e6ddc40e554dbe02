-- ===== src/Frames/Sessions/Detaching/Rerouted.antt =====
-- Where `FrameState::detach_child_session` of src/runtime/frame.rs sends the commands of the frames.
use browserkit.Common.{
  ◌≡◌, refl, ap, ◌∙◌, inl, inr, true, false, none, some, List, [], ◌∷◌, String, if◌then◌else◌,
  Bool-cases, Option-cases, ◌==◌, beq_refl, string_eq, arith, has,
}
use browserkit.Common.Assoc.{Assoc, lookup, UniqueKeys}
use browserkit.Frames.Graph.{FrameGraph}
use browserkit.Frames.Routes.{route_session, reroute_session, reroute}
use browserkit.Frames.Changes.Links.{lookup-reroute_frames}
use browserkit.Frames.Subtree.{Parents, IsUnder, top, below}
use browserkit.Frames.Subtree.Collect.{collect_session_subtree-IsUnder}
use browserkit.Frames.Fallback.{
  can_serve, resolve_live_parent, IsFallback, resolve_live_parent-IsFallback,
}
use browserkit.Frames.Sessions.{is_detached, ChildSessionOwnership, FrameState}
use browserkit.Frames.Sessions.Detaching.{
  parents_of, reroute_all, subtree_of, live_sessions, rerouted_graph, is_attached,
  detach_child_session,
}
use browserkit.Frames.Sessions.Detaching.Retired.{others-retire_all}

route_session-reroute :
    (session fallback x : String) (g : FrameGraph)
    → route_session x (reroute_session session fallback g) ≡ elim (route_session x g) [
      | none ↦ none
      | some route ↦ some (if route == session then fallback else route)
    ]
unfolding route_session reroute_session reroute
route_session-reroute session fallback x g = elim (Option-cases (lookup x g.frames)) [
  | inl e ↦ ground (arith, lookup-reroute_frames session fallback x g.frames)
  | inr (r, e) ↦ ground (arith, lookup-reroute_frames session fallback x g.frames)
]

-- A fallback is not among the sessions that are removed.
fallback-stays :
    (m : Parents) (live removing : List String) (session main found : String)
    → has main removing ≡ false
    → IsFallback m live removing session main found
    → has found removing ≡ false
unfolding IsFallback can_serve
fallback-stays m live removing session main found stays (inl (above, serves)) = ground arith
fallback-stays m live removing session main found stays (inr (e, nobody)) = ground arith

-- The route of a frame after the loop, from its route before.
unfoldable pub moved_route :
    Parents → List String → List String → List String → String → String → String
moved_route m live removing sessions main route =
    if has route sessions then resolve_live_parent m live removing route main else route

route_session-reroute_all :
    (m : Parents) (live removing sessions : List String) (x route : String) (g : FrameGraph)
    → has g.main_session_id removing ≡ false
    → ((s : String) → has s sessions ≡ true → has s removing ≡ true)
    → route_session x g ≡ some route
    → route_session x (reroute_all m live removing sessions g)
      ≡ some (moved_route m live removing sessions g.main_session_id route)
unfolding reroute_all moved_route has reroute_session
route_session-reroute_all m live removing [] x route g stays part h = h
route_session-reroute_all m live removing (session ∷ sessions) x route g stays part h =
    let main = g.main_session_id in
    let fallback = resolve_live_parent m live removing session main in
    let next = reroute_session session fallback g in
    let leaves = part session (ground (arith, beq_refl session)) in
    let not_back =
      fallback-stays m live removing session main fallback stays
        (resolve_live_parent-IsFallback m live removing session main leaves) in
    let inner : (r : String)
        → route_session x next ≡ some r
        → route_session x (reroute_all m live removing sessions next)
          ≡ some (moved_route m live removing sessions main r) =
      λ r h'.
        route_session-reroute_all m live removing sessions x r next stays
          (λ s there. part s (ground arith)) h' in
    elim (Bool-cases (route == session)) [
      | inl e ↦
          let same = (string_eq.beq_iff route session).0 e in
          let here : route_session x next ≡ some fallback =
            ground (arith, route_session-reroute session fallback x g) in
          let out : has fallback sessions ≡ false = elim (Bool-cases (has fallback sessions)) [
            | inl bad ↦ ground (arith, part fallback)
            | inr good ↦ good
          ] in
          inner fallback here ∙ ground (arith, beq_refl session)
      | inr e ↦
          let here : route_session x next ≡ some route =
            ground (arith, route_session-reroute session fallback x g) in
          inner route here
          ∙ ground (arith, string_eq.beq_iff session route, string_eq.beq_iff route session)
    ]

-- The parent of a session that is not detached.
lookup-parents_of :
    {C : Type 0} (s p : String) (m : Assoc String (ChildSessionOwnership C))
    → UniqueKeys m
    → lookup s (parents_of m) ≡ some p
    → (o : ChildSessionOwnership C) × (lookup s m ≡ some o) × (is_detached o.phase ≡ false)
unfolding lookup parents_of
lookup-parents_of s p [] u h = cc
lookup-parents_of s p ((k, w) ∷ m) u h = elim (Bool-cases (is_detached w.phase)) [
  | inl e ↦
      let (o, there, held) = lookup-parents_of s p m u.1 (rw (e, parents_of) at h) in
      (o, ground (arith, string_eq.beq_iff k s, u.0), held)
  | inr e ↦ elim (Bool-cases (k == s)) [
    | inl e' ↦ (w, rw e' refl, e)
    | inr e' ↦
        let (o, there, held) = lookup-parents_of s p m u.1 (rw (e, e', parents_of) at h) in
        (o, rw e' there, held)
  ]
]

absent-parents_of :
    {C : Type 0} (s : String) (m : Assoc String (ChildSessionOwnership C))
    → lookup s m ≡ none
    → lookup s (parents_of m) ≡ none
unfolding lookup parents_of
absent-parents_of s [] h = refl
absent-parents_of s ((k, w) ∷ m) h = ground (arith, absent-parents_of s m)

parents_of-UniqueKeys :
    {C : Type 0} (m : Assoc String (ChildSessionOwnership C))
    → UniqueKeys m
    → UniqueKeys (parents_of m)
unfolding lookup parents_of
parents_of-UniqueKeys [] u = tt
parents_of-UniqueKeys ((k, w) ∷ m) u = elim (Bool-cases (is_detached w.phase)) [
  | inl e ↦ rw e (parents_of-UniqueKeys m u.1)
  | inr e ↦ rw e (absent-parents_of k m u.0, parents_of-UniqueKeys m u.1)
]

module _ {C S : Type 0} where
  under-is_attached :
      (m : Parents) (root s : String) (st : FrameState C S)
      → IsUnder m root s
      → is_attached root st ≡ true
      → ((child p : String) → lookup child m ≡ some p → is_attached child st ≡ true)
      → is_attached s st ≡ true
  under-is_attached m root s st top there each = there
  under-is_attached m root s st (below {parent} under l) there each = each s parent l

  -- Every session of the subtree is attached, or being attached.
  subtree-is_attached :
      (session s : String) (st : FrameState C S)
      → UniqueKeys st.child_sessions
      → is_attached session st ≡ true
      → has s (subtree_of session st) ≡ true
      → is_attached s st ≡ true
  unfolding subtree_of is_attached
  subtree-is_attached session s st u there found =
      let parents = parents_of st.child_sessions in
      let unique = parents_of-UniqueKeys st.child_sessions u in
      let held = (collect_session_subtree-IsUnder parents session s unique).0 found in
      under-is_attached parents session s st held there
        (λ c p l. let (o, lo, out) = lookup-parents_of c p st.child_sessions u l in ground arith)

  -- Where a detach sends the frames. Child sessions have distinct ids; the session was attached or
  -- being attached, and the main session is neither. A frame whose commands went through a session that stays keeps its
  -- route. The others go to a live session that the one they had was opened from, directly or not,
  -- and that stays; to the main session when there is none. So no frame's commands go through a
  -- session that is removed.
  pub detach_child_session-routes :
      (session x route : String) (st : FrameState C S)
      → UniqueKeys st.child_sessions
      → is_attached session st ≡ true
      → is_attached st.graph.main_session_id st ≡ false
      → route_session x st.graph ≡ some route
      → (found : String) × (route_session x (detach_child_session session st).0.graph ≡ some found)
        × (has found (detach_child_session session st).1.session_ids ≡ false)
        × (if has route (detach_child_session session st).1.session_ids
            then IsFallback
                (parents_of st.child_sessions)
                (live_sessions st)
                (detach_child_session session st).1.session_ids
                route
                st.graph.main_session_id
                found
            else found ≡ route)
  unfolding detach_child_session rerouted_graph moved_route
  detach_child_session-routes session x route st u there main_free h =
      let m = parents_of st.child_sessions in
      let main = st.graph.main_session_id in
      let ids = subtree_of session st in
      let live = live_sessions st in
      let stays : has main ids ≡ false = elim (Bool-cases (has main ids)) [
        | inl bad ↦ ground (arith, subtree-is_attached session main st u there bad)
        | inr good ↦ good
      ] in
      let moved = route_session-reroute_all m live ids ids x route st.graph stays (λ s h. h) h in
      let (inner, context, graph) =
        others-retire_all ids x x (record st { graph = rerouted_graph session st }) in
      let route_after = ap (route_session x) graph ∙ moved in
      rw (there, detach_child_session)
        (elim (Bool-cases (has route ids)) [
          | inl e ↦
              let found = resolve_live_parent m live ids route main in
              let falls = resolve_live_parent-IsFallback m live ids route main e in
              (
                found,
                rw (e, moved_route) at route_after,
                fallback-stays m live ids route main found stays falls,
                rw e falls,
              )
          | inr e ↦ (route, rw (e, moved_route) at route_after, e, rw e refl)
        ])
