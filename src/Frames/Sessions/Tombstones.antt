-- ===== src/Frames/Sessions/Tombstones.antt =====
-- The attaches of child sessions of src/runtime/frame.rs: what keeps an attach that was given up
-- from coming back.
pub mod Kept
pub mod Stuck
use browserkit.Common.{
  ℕ, ◌+◌, ◌%◌, ◌^◌, ◌≡◌, ◌≢◌, refl, ap, subst, sym, ◌∙◌, ◌⊎◌, inl, inr, Bool, true, false, not,
  ◌&&◌, Option, none, some, List, [], ◌∷◌, String, if◌then◌else◌, is_some, Bool-cases, Option-cases,
  ◌==◌, beq_refl, string_eq, arith, eqb, eqb_iff, has,
}
use browserkit.Common.Assoc.{
  lookup, insert, remove, modify, lookup-insert, lookup-modify, lookup-remove,
}
use browserkit.Frames.Routes.{route_oopif}
use browserkit.Frames.Tree.{FrameTree}
use browserkit.Frames.Sessions.{
  ChildSessionPhase, initializing, active, detached, initializes, is_tombstone, is_detached,
  ChildSessionOwnership, FrameState, SessionAttachDisposition, is_new, idempotent, conflict,
  OopifAttachStart, initialize, classify_session_attach, existing_of, belongs_to_page,
  claim_session, begin_oopif_attach, with_phase, activate_oopif_attach, abandon_oopif_attach,
  acknowledge_detached,
}
use browserkit.Frames.Sessions.Detaching.{detach_child_session, is_attached}
use browserkit.Frames.Sessions.Detaching.Retired.{
  retired, retired-tombstone, detach_child_session-sessions,
}
use browserkit.Frames.Sessions.Commit.{committed_graph, commit_oopif, assert_activated}

module _ {C S : Type 0} where
  -- A session was detached while it was being attached under the token.
  unfoldable pub HasTombstone : String → ℕ → FrameState C S → Type 0
  HasTombstone session token st =
      (o : ChildSessionOwnership C) × (lookup session st.child_sessions ≡ some o)
      × (o.phase ≡ detached token)

  -- The operations on child sessions, but the acknowledgement of this tombstone.
  pub data Move (session : String) (token : ℕ) (st : FrameState C S) : FrameState C S → Type 0 where
    begins :
        (s root : String) (frame parent : Option String) (cancel : C)
        → Move session token st (begin_oopif_attach s root frame parent cancel st).0
    activates : (s : String) (t : ℕ) → Move session token st (activate_oopif_attach s t st).0
    abandons : (s : String) (t : ℕ) → Move session token st (abandon_oopif_attach s t st).0
    acknowledges :
        (s : String) (t : ℕ)
        → (session == s) && eqb token t ≡ false
        → Move session token st (acknowledge_detached s t st).0
    detaches : (s : String) → Move session token st (detach_child_session s st).0
    commits :
        (debug_assertions : Bool) (s : String) (t : ℕ) (handle : S) (frame : String)
        (parent parent_session : Option String) (target : String) (tree : FrameTree)
        (roots : List String)
        → Move session token st
            (commit_oopif debug_assertions s t handle frame parent parent_session target tree roots
              st).0

  pub data Moves (session : String) (token : ℕ) (st : FrameState C S)
      : FrameState C S → Type 0 where
    stay : Moves session token st st
    step :
        {mid after : FrameState C S}
        → Moves session token st mid
        → Move session token mid after
        → Moves session token st after
