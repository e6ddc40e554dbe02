-- ===== src/Frames/Sessions/Tombstones/Stuck.antt =====
-- What a tombstone of src/runtime/frame.rs refuses, and how a build makes one that stays.
use browserkit.Common.{
  ℕ, ◌≡◌, ◌≢◌, refl, ap, subst, true, false, Option, none, some, List, String, string_eq, arith,
  eqb_iff, has,
}
use browserkit.Common.Assoc.{lookup}
use browserkit.Frames.Tree.{FrameTree}
use browserkit.Frames.Sessions.{
  ChildSessionPhase, initializing, active, detached, initializes, ChildSessionOwnership, FrameState,
  initialize, begin_oopif_attach, with_phase, activate_oopif_attach,
}
use browserkit.Frames.Sessions.Detaching.{detach_child_session, is_attached}
use browserkit.Frames.Sessions.Detaching.Retired.{retired, detach_child_session-sessions}
use browserkit.Frames.Sessions.Commit.{commit_oopif}
use browserkit.Frames.Sessions.Tombstones.{HasTombstone, Moves, stay, step}
use browserkit.Frames.Subtree.{top}
use browserkit.Frames.Subtree.Collect.{IsUnder-collect}
use browserkit.Frames.Sessions.Detaching.{parents_of, subtree_of}
use browserkit.Frames.Sessions.Commit.{commit_oopif-phase}
use browserkit.Frames.Sessions.Tombstones.Kept.{begin-known, Move-HasTombstone}

initializes-phase :
    (p : ChildSessionPhase) (token : ℕ) → initializes p token ≡ true → p ≡ initializing token
initializes-phase (initializing t) token h = ap initializing ((eqb_iff t token).0 h)
initializes-phase (active t) token h = cc
initializes-phase (detached t) token h = cc

module _ {C S : Type 0} where
  Moves-HasTombstone :
      {session : String} {token : ℕ} {st after : FrameState C S}
      → Moves session token st after
      → HasTombstone session token st
      → HasTombstone session token after
  Moves-HasTombstone stay h = h
  Moves-HasTombstone (step moves move) h = Move-HasTombstone move (Moves-HasTombstone moves h)

  -- A session that was detached while it was being attached. Whatever is done to child sessions
  -- then, but the acknowledgement under the token of that attach: no event of an attach starts a
  -- new one, and no activation succeeds, whatever its token.
  pub tombstone-blocks :
      (session : String) (token : ℕ) (st after : FrameState C S)
      → HasTombstone session token st
      → Moves session token st after
      → ((root : String) (frame parent : Option String) (cancel c : C) (t : ℕ)
          → (begin_oopif_attach session root frame parent cancel after).1 ≢ initialize t c)
        × ((t : ℕ) → (activate_oopif_attach session t after).1 ≡ false)
  unfolding HasTombstone activate_oopif_attach
  tombstone-blocks session token st after h moves =
      let (o, there, dead) = Moves-HasTombstone moves h in
      (
        λ root frame parent cancel c t.
            (begin-known session root frame parent cancel o after there).1 t c,
        λ t. ground arith,
      )

  -- In a build without debug assertions, a session that was being attached and whose route was then
  -- committed leaves a tombstone when it is detached, as if its attach had not ended.
  pub release_commit-HasTombstone :
      (session : String) (token : ℕ) (handle : S) (frame : String)
      (parent parent_session previous : Option String) (target : String) (tree : FrameTree)
      (roots : List String) (o : ChildSessionOwnership C) (st after : FrameState C S)
      → lookup session st.child_sessions ≡ some o
      → initializes o.phase token ≡ true
      → commit_oopif false session token handle frame parent parent_session target tree roots st
        ≡ (after, some previous)
      → HasTombstone session token (detach_child_session session after).0
  unfolding HasTombstone retired is_attached with_phase detach_child_session subtree_of
  release_commit-HasTombstone session token handle frame parent parent_session previous target tree
        roots o st after there ready done =
      let left : lookup session after.child_sessions ≡ some o =
        subst
          (λ p.
            lookup session p.0.child_sessions
            ≡ some (elim p.1 [ none ↦ with_phase (detached token) o | some was ↦ o ]))
          done
          (commit_oopif-phase false session token handle frame parent parent_session target tree
            roots o st there ready) in
      let held = initializes-phase o.phase token ready in
      let attached : is_attached session after ≡ true = rw (left, is_attached, held) refl in
      let found = IsUnder-collect (parents_of after.child_sessions) session session top in
      let (inner, context, child) =
        detach_child_session-sessions session session "" after attached in
      let ids : has session (detach_child_session session after).1.session_ids ≡ true =
        rw (attached, detach_child_session) found in
      (with_phase (detached token) o, ground arith, refl)
