-- ===== src/Frames/Sessions/Tombstones/Kept.antt =====
-- Each operation on child sessions of src/runtime/frame.rs leaves a tombstone in place.
use browserkit.Common.{
  ℕ, ◌+◌, ◌%◌, ◌^◌, ◌≡◌, ◌≢◌, refl, ap, subst, sym, ◌∙◌, ◌⊎◌, inl, inr, Bool, false, ◌&&◌, Option,
  some, List, String, Bool-cases, Option-cases, ◌==◌, string_eq, arith, eqb, eqb_iff,
}
use browserkit.Common.Assoc.{lookup, insert, lookup-insert, lookup-modify, lookup-remove}
use browserkit.Frames.Routes.{route_oopif}
use browserkit.Frames.Tree.{FrameTree}
use browserkit.Frames.Sessions.{
  initializing, active, detached, ChildSessionOwnership, FrameState, idempotent, conflict,
  initialize, classify_session_attach, existing_of, claim_session, begin_oopif_attach, with_phase,
  activate_oopif_attach, abandon_oopif_attach, acknowledge_detached,
}
use browserkit.Frames.Sessions.Detaching.{detach_child_session, is_attached}
use browserkit.Frames.Sessions.Detaching.Retired.{
  retired, retired-tombstone, detach_child_session-sessions,
}
use browserkit.Frames.Sessions.Commit.{committed_graph, commit_oopif, assert_activated}
use browserkit.Frames.Sessions.Tombstones.{
  HasTombstone, Move, begins, activates, abandons, acknowledges, detaches, commits,
}

classify-known :
    (existing : String × String) (session root : String) (parent : Option String)
    → (classify_session_attach (some existing) session root parent ≡ idempotent)
      ⊎ (classify_session_attach (some existing) session root parent ≡ conflict)
unfolding classify_session_attach
classify-known (r, p) session root parent = ground arith

module _ {C S : Type 0} where
  -- A session that is known is not attached anew.
  pub begin-known :
      (s root : String) (frame parent : Option String) (cancel : C) (o : ChildSessionOwnership C)
      (st : FrameState C S)
      → lookup s st.child_sessions ≡ some o
      → ((begin_oopif_attach s root frame parent cancel st).0 ≡ st)
        × ((t : ℕ) (c : C) → (begin_oopif_attach s root frame parent cancel st).1 ≢ initialize t c)
  unfolding begin_oopif_attach existing_of
  begin-known s root frame parent cancel o st there =
      elim (classify-known (o.root_frame_id, o.parent_session_id) s root parent) [
        | inl e ↦ rw (there, begin_oopif_attach, existing_of, e) (refl, λ t c h. cc)
        | inr e ↦ rw (there, begin_oopif_attach, existing_of, e) (refl, λ t c h. cc)
      ]

  claim-others :
      (session s root parent : String) (cancel : C) (st : FrameState C S)
      → s == session ≡ false
      → lookup session (claim_session s root parent cancel st).child_sessions
        ≡ lookup session st.child_sessions
  unfolding claim_session
  claim-others session s root parent cancel st other = ground (
    arith,
    lookup-insert s session
        (record {
          root_frame_id = root;
          parent_session_id = parent;
          reducer_cancel = cancel;
          phase = initializing ((st.next_attach_token + 1) % 2 ^ 64);
        })
        st.child_sessions,
  )

  begin-others :
      (session s root : String) (frame parent : Option String) (cancel : C) (st : FrameState C S)
      → s == session ≡ false
      → lookup session (begin_oopif_attach s root frame parent cancel st).0.child_sessions
        ≡ lookup session st.child_sessions
  unfolding begin_oopif_attach
  begin-others session s root frame parent cancel st other = elim (Option-cases parent) [
    | inl e ↦ ground arith
    | inr (p, e) ↦ ground (arith, claim-others session s root p cancel st other)
  ]

  begin-HasTombstone :
      (session s root : String) (token : ℕ) (frame parent : Option String) (cancel : C)
      (st : FrameState C S)
      → HasTombstone session token st
      → HasTombstone session token (begin_oopif_attach s root frame parent cancel st).0
  unfolding begin_oopif_attach HasTombstone existing_of classify_session_attach claim_session
  begin-HasTombstone session s root token frame parent cancel st (o, there, dead) =
      elim (Bool-cases (s == session)) [
        | inl e ↦
            let same = (string_eq.beq_iff s session).0 e in
            let known =
              begin-known s root frame parent cancel o st
                (subst (λ x. lookup x st.child_sessions ≡ some o) (sym same) there) in
            (o, ap (λ x. lookup session x.child_sessions) known.0 ∙ there, dead)
        | inr e ↦ (o, begin-others session s root frame parent cancel st e ∙ there, dead)
      ]

  activate-HasTombstone :
      (session s : String) (token t : ℕ) (st : FrameState C S)
      → HasTombstone session token st
      → HasTombstone session token (activate_oopif_attach s t st).0
  unfolding activate_oopif_attach HasTombstone with_phase
  activate-HasTombstone session s token t st (o, there, dead) = (
    o,
    ground (
      arith,
      string_eq.beq_iff s session,
      lookup-modify s session (with_phase (active t)) st.child_sessions,
    ),
    dead,
  )

  abandon-HasTombstone :
      (session s : String) (token t : ℕ) (st : FrameState C S)
      → HasTombstone session token st
      → HasTombstone session token (abandon_oopif_attach s t st).0
  unfolding abandon_oopif_attach HasTombstone with_phase
  abandon-HasTombstone session s token t st (o, there, dead) = (
    o,
    ground (
      arith,
      string_eq.beq_iff s session,
      lookup-modify s session (with_phase (detached t)) st.child_sessions,
    ),
    dead,
  )

  acknowledge-HasTombstone :
      (session s : String) (token t : ℕ) (st : FrameState C S)
      → (session == s) && eqb token t ≡ false
      → HasTombstone session token st
      → HasTombstone session token (acknowledge_detached s t st).0
  unfolding acknowledge_detached HasTombstone
  acknowledge-HasTombstone session s token t st other (o, there, dead) = (
    o,
    ground (
      arith,
      string_eq.beq_iff s session,
      string_eq.beq_iff session s,
      eqb_iff token t,
      lookup-remove s session st.child_sessions,
    ),
    dead,
  )

  detach-HasTombstone :
      (session s : String) (token : ℕ) (st : FrameState C S)
      → HasTombstone session token st
      → HasTombstone session token (detach_child_session s st).0
  unfolding HasTombstone detach_child_session
  detach-HasTombstone session s token st (o, there, dead) = elim (Bool-cases (is_attached s st)) [
    | inl e ↦
        let (inner, context, child) = detach_child_session-sessions s session "" st e in
        let kept : retired (lookup session st.child_sessions) ≡ some o =
          ap retired there ∙ retired-tombstone o token dead in
        (o, ground arith, dead)
    | inr e ↦ (o, rw (e, detach_child_session) there, dead)
  ]

  commit-HasTombstone :
      (session : String) (token : ℕ) (debug_assertions : Bool) (s : String) (t : ℕ) (handle : S)
      (frame : String) (parent parent_session : Option String) (target : String) (tree : FrameTree)
      (roots : List String) (st : FrameState C S)
      → HasTombstone session token st
      → HasTombstone session token
          (commit_oopif debug_assertions s t handle frame parent parent_session target tree roots
            st).0
  unfolding commit_oopif assert_activated HasTombstone
  commit-HasTombstone session token debug_assertions s t handle frame parent parent_session target
        tree roots st h =
      let routed = route_oopif frame parent parent_session s target st.graph in
      let moved = record st {
        graph = committed_graph frame s target tree roots routed.0;
        sessions = insert s handle st.sessions;
      } in
      elim (Bool-cases routed.1) [
        | inl e ↦ elim (Bool-cases debug_assertions) [
          | inl d ↦
              rw (e, commit_oopif, d, assert_activated)
                (activate-HasTombstone session s token t moved h)
          | inr d ↦ rw (e, commit_oopif, d, assert_activated) h
        ]
        | inr e ↦ rw (e, commit_oopif) (abandon-HasTombstone session s token t st h)
      ]

  pub Move-HasTombstone :
      {session : String} {token : ℕ} {st after : FrameState C S}
      → Move session token st after
      → HasTombstone session token st
      → HasTombstone session token after
  Move-HasTombstone {session} {token} {st} (begins s root frame parent cancel) h =
      begin-HasTombstone session s root token frame parent cancel st h
  Move-HasTombstone {session} {token} {st} (activates s t) h =
      activate-HasTombstone session s token t st h
  Move-HasTombstone {session} {token} {st} (abandons s t) h =
      abandon-HasTombstone session s token t st h
  Move-HasTombstone {session} {token} {st} (acknowledges s t other) h =
      acknowledge-HasTombstone session s token t st other h
  Move-HasTombstone {session} {token} {st} (detaches s) h = detach-HasTombstone session s token st h
  Move-HasTombstone {session} {token} {st}
        (commits debug_assertions s t handle frame parent parent_session target tree roots) h =
      commit-HasTombstone session token debug_assertions s t handle frame parent parent_session
        target tree roots st h
