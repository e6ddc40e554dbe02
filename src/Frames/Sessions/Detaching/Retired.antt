-- ===== src/Frames/Sessions/Detaching/Retired.antt =====
-- What `FrameState::detach_child_session` of src/runtime/frame.rs leaves of the sessions that it
-- removes.
use browserkit.Common.{
  ℕ, ◌≡◌, refl, ◌∙◌, ◌⊎◌, inl, inr, true, Option, none, some, List, [], ◌∷◌, String, if◌then◌else◌,
  Option-cases, ◌==◌, string_eq, arith, has,
}
use browserkit.Common.Assoc.{lookup, lookup-remove, lookup-modify}
use browserkit.Frames.Sessions.{
  ChildSessionPhase, initializing, active, detached, ChildSessionOwnership, FrameState, with_phase,
}
use browserkit.Frames.Sessions.Contexts.{Contexts, default_context, clear_contexts}
use browserkit.Frames.Sessions.Detaching.{
  retire_child, retire, retire_all, is_attached, subtree_of, rerouted_graph, detach_child_session,
}

-- A session that was being attached leaves a tombstone under its token; an attached one nothing.
unfoldable pub retired :
    {C : Type 0} → Option (ChildSessionOwnership C) → Option (ChildSessionOwnership C)
retired none = none
retired (some o) = elim o.phase [
  | initializing token ↦ some (with_phase (detached token) o)
  | active token ↦ none
  | detached token ↦ some o
]

pub default_context-clear_contexts :
    (session s frame : String) (contexts : Contexts)
    → default_context s frame (clear_contexts session contexts)
      ≡ (if session == s then none else default_context s frame contexts)
unfolding default_context clear_contexts
default_context-clear_contexts session s frame [] = ground arith
default_context-clear_contexts session s frame (r ∷ contexts) = ground (
  arith,
  default_context-clear_contexts session s frame contexts,
  string_eq.beq_iff session s,
  string_eq.beq_iff r.session_id session,
  string_eq.beq_iff r.session_id s,
)

pub Phase-cases :
    (p : ChildSessionPhase)
    → ((t : ℕ) × (p ≡ initializing t)) ⊎ ((t : ℕ) × (p ≡ active t)) ⊎ ((t : ℕ) × (p ≡ detached t))
Phase-cases (initializing t) = inl (t, refl)
Phase-cases (active t) = inr (inl (t, refl))
Phase-cases (detached t) = inr (inr (t, refl))

pub retired-tombstone :
    {C : Type 0} (o : ChildSessionOwnership C) (t : ℕ)
    → o.phase ≡ detached t
    → retired (some o) ≡ some o
unfolding retired
retired-tombstone o t dead = ground arith

retired_idem : {C : Type 0} (o : Option (ChildSessionOwnership C)) → retired (retired o) ≡ retired o
unfolding retired with_phase
retired_idem none = refl
retired_idem (some o) = ground arith

module _ {C S : Type 0} where
  child-retire :
      (session s : String) (st : FrameState C S)
      → lookup s (retire session st).child_sessions ≡ (
          if session == s then retired (lookup s st.child_sessions) else lookup s st.child_sessions)
  unfolding retire retire_child retired
  child-retire session s st = elim (Option-cases (lookup session st.child_sessions)) [
    | inl e ↦ ground (arith, string_eq.beq_iff session s)
    | inr (o, e) ↦ elim (Phase-cases o.phase) [
      | inl (t, p) ↦ ground (
        arith,
        lookup-modify session s (with_phase (detached t)) st.child_sessions,
        string_eq.beq_iff session s,
      )
      | inr (inl (t, p)) ↦
          ground (arith, lookup-remove session s st.child_sessions, string_eq.beq_iff session s)
      | inr (inr (t, p)) ↦ ground (arith, string_eq.beq_iff session s)
    ]
  ]

  others-retire :
      (session s : String) (st : FrameState C S)
      → (lookup s (retire session st).sessions
          ≡ (if session == s then none else lookup s st.sessions))
        × ((retire session st).execution_contexts ≡ clear_contexts session st.execution_contexts)
        × ((retire session st).graph ≡ st.graph)
  unfolding retire retire_child
  others-retire session s st = elim (Option-cases (lookup session st.child_sessions)) [
    | inl e ↦ rw (e, retire, retire_child) (lookup-remove session s st.sessions, refl, refl)
    | inr (o, e) ↦ elim (Phase-cases o.phase) [
      | inl (t, p) ↦
          rw (e, p, retire, retire_child) (lookup-remove session s st.sessions, refl, refl)
      | inr (inl (t, p)) ↦
          rw (e, p, retire, retire_child) (lookup-remove session s st.sessions, refl, refl)
      | inr (inr (t, p)) ↦
          rw (e, p, retire, retire_child) (lookup-remove session s st.sessions, refl, refl)
    ]
  ]

  child-retire_all :
      (sessions : List String) (s : String) (st : FrameState C S)
      → lookup s (retire_all sessions st).child_sessions ≡ (
          if has s sessions
          then retired (lookup s st.child_sessions)
          else lookup s st.child_sessions)
  unfolding retire_all has
  child-retire_all [] s st = refl
  child-retire_all (session ∷ sessions) s st = ground (
    arith,
    child-retire_all sessions s (retire session st),
    child-retire session s st,
    retired_idem (lookup s st.child_sessions),
  )

  pub others-retire_all :
      (sessions : List String) (s frame : String) (st : FrameState C S)
      → (lookup s (retire_all sessions st).sessions
          ≡ (if has s sessions then none else lookup s st.sessions))
        × (default_context s frame (retire_all sessions st).execution_contexts
            ≡ (if has s sessions then none else default_context s frame st.execution_contexts))
        × ((retire_all sessions st).graph ≡ st.graph)
  unfolding retire_all has
  others-retire_all [] s frame st = (refl, refl, refl)
  others-retire_all (session ∷ sessions) s frame st =
      let (inner, context, graph) = others-retire_all sessions s frame (retire session st) in
      let (here, contexts, same) = others-retire session s st in
      (
        ground arith,
        ground (arith, default_context-clear_contexts session s frame st.execution_contexts),
        graph ∙ same,
      )

  -- What a detach leaves of each session, when the session was attached or being attached: of the
  -- sessions that it reports, no session object and no execution context, and no ownership but a
  -- tombstone under the token of an attach that has not ended. It leaves the other sessions as they
  -- were.
  pub detach_child_session-sessions :
      (session s frame : String) (st : FrameState C S)
      → is_attached session st ≡ true
      → (lookup s (detach_child_session session st).0.sessions ≡ (
          if has s (detach_child_session session st).1.session_ids
          then none
          else lookup s st.sessions))
        × (default_context s frame (detach_child_session session st).0.execution_contexts ≡ (
            if has s (detach_child_session session st).1.session_ids
            then none
            else default_context s frame st.execution_contexts))
        × (lookup s (detach_child_session session st).0.child_sessions ≡ (
            if has s (detach_child_session session st).1.session_ids
            then retired (lookup s st.child_sessions)
            else lookup s st.child_sessions))
  unfolding detach_child_session
  detach_child_session-sessions session s frame st there =
      let moved = record st { graph = rerouted_graph session st } in
      let (inner, context, graph) = others-retire_all (subtree_of session st) s frame moved in
      rw (there, detach_child_session)
        (inner, context, child-retire_all (subtree_of session st) s moved)
