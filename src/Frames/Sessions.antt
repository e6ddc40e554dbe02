-- ===== src/Frames/Sessions.antt =====
-- `FrameState` of src/runtime/frame.rs: the child sessions that serve the frames of other
-- processes. `C` is the type of `CancellationToken` and `S` that of the sessions of cdpkit, both
-- third-party; the tokens that were cancelled are kept in order.
pub mod Contexts
pub mod Detaching
pub mod Commit
pub mod Tombstones
use browserkit.Common.{
  ℕ, ◌+◌, ◌%◌, ◌^◌, ◌≡◌, Bool, true, false, not, ◌&&◌, ◌||◌, Option, none, some, List, [], ◌∷◌,
  ◌++◌, String, eqb, if◌then◌else◌, is_some, ◌==◌, string_eq, add,
}
use browserkit.Common.Assoc.{Assoc, lookup, insert, remove, modify}
use browserkit.Frames.Graph.{FrameGraph, names}
use browserkit.Frames.Routes.{route_session, can_route_oopif, reroute_session}
use browserkit.Frames.Subtree.{Parents, collect_session_subtree}
use browserkit.Frames.Fallback.{resolve_live_parent}
use Contexts.{ExecutionContextRecord, clear_contexts}

-- The number is the `AttachToken`.
pub data ChildSessionPhase : Type 0 where
  initializing active detached : ℕ → ChildSessionPhase

abbrev pub is_active : ChildSessionPhase → Bool
is_active (initializing t) = false
is_active (active t) = true
is_active (detached t) = false

abbrev pub is_detached : ChildSessionPhase → Bool
is_detached (initializing t) = false
is_detached (active t) = false
is_detached (detached t) = true

-- `phase == ChildSessionPhase::Initializing(token)`.
abbrev pub initializes : ChildSessionPhase → ℕ → Bool
initializes (initializing t) token = eqb t token
initializes (active t) token = false
initializes (detached t) token = false

-- `phase == ChildSessionPhase::Detached(token)`.
abbrev pub is_tombstone : ChildSessionPhase → ℕ → Bool
is_tombstone (initializing t) token = false
is_tombstone (active t) token = false
is_tombstone (detached t) token = eqb t token

pub record ChildSessionOwnership (C : Type 0) : Type 0 where
  pub root_frame_id : String
  pub parent_session_id : String
  pub reducer_cancel : C
  pub phase : ChildSessionPhase

pub record FrameState (C S : Type 0) : Type 0 where
  pub graph : FrameGraph
  pub sessions : Assoc String S
  pub child_sessions : Assoc String (ChildSessionOwnership C)
  pub next_attach_token : ℕ
  pub execution_contexts : List ExecutionContextRecord
  pub cancelled : List C

pub data SessionAttachDisposition : Type 0 where
  is_new idempotent conflict : SessionAttachDisposition

-- Each `existing` is the root frame and the parent session that the session has.
unfoldable pub classify_session_attach :
    Option (String × String) → String → String → Option String → SessionAttachDisposition
classify_session_attach existing session root parent =
    if names parent session then conflict else elim existing [
      | none ↦ if is_some parent then is_new else conflict
      | some (held_root, held_parent) ↦
          if (held_root == root) && names parent held_parent then idempotent else conflict
    ]

pub data OopifAttachStart (C : Type 0) : Type 0 where
  initialize : ℕ → C → OopifAttachStart C
  idempotent_start : Bool → OopifAttachStart C
  conflict_start foreign_parent route_unavailable : OopifAttachStart C

-- The parent is a frame of the page, and the event came through its session.
unfoldable pub belongs_to_page : Option String → Option String → FrameGraph → Bool
belongs_to_page none parent_session g = false
belongs_to_page (some parent_frame) parent_session g = elim (route_session parent_frame g) [
  | none ↦ false
  | some route ↦ names parent_session route
]

unfoldable pub with_phase :
    {C : Type 0} → ChildSessionPhase → ChildSessionOwnership C → ChildSessionOwnership C
with_phase phase o = record o { phase = phase }

module _ {C S : Type 0} where
  unfoldable pub routed_session : String → FrameState C S → Option S
  routed_session frame st = elim (route_session frame st.graph) [
    | none ↦ none
    | some session ↦ lookup session st.sessions
  ]

  -- `Option<(&str, &str)>` of the session's ownership.
  unfoldable pub existing_of : String → FrameState C S → Option (String × String)
  existing_of session st = elim (lookup session st.child_sessions) [
    | none ↦ none
    | some o ↦ some (o.root_frame_id, o.parent_session_id)
  ]

  -- A new session is initializing under the next token.
  unfoldable pub claim_session : String → String → String → C → FrameState C S → FrameState C S
  claim_session session root parent cancel st =
      let token = (st.next_attach_token + 1) % 2 ^ 64 in
      record st {
        next_attach_token = token;
        child_sessions =
            insert session
              (record {
                root_frame_id = root;
                parent_session_id = parent;
                reducer_cancel = cancel;
                phase = initializing token;
              })
              st.child_sessions;
      }

  unfoldable pub begin_oopif_attach :
      String
      → String
      → Option String
      → Option String
      → C
      → FrameState C S
      → FrameState C S × OopifAttachStart C
  begin_oopif_attach session root parent_frame parent_session cancel st =
      elim (classify_session_attach (existing_of session st) session root parent_session) [
        | idempotent ↦ (
          st,
          idempotent_start (elim (lookup session st.child_sessions) [
            | none ↦ false
            | some o ↦ is_active o.phase
          ]),
        )
        | conflict ↦ (st, conflict_start)
        | is_new ↦
            if not (belongs_to_page parent_frame parent_session st.graph)
            then (st, foreign_parent)
            else if not (can_route_oopif root parent_frame parent_session st.graph)
            then (st, route_unavailable)
            else elim parent_session [
              | none ↦ (st, foreign_parent)
              | some parent ↦ (
                claim_session session root parent cancel st,
                initialize ((st.next_attach_token + 1) % 2 ^ 64) cancel,
              )
            ]
      ]

  unfoldable pub is_initializing_oopif_attach : String → ℕ → FrameState C S → Bool
  is_initializing_oopif_attach session token st = elim (lookup session st.child_sessions) [
    | none ↦ false
    | some o ↦ initializes o.phase token
  ]

  unfoldable pub activate_oopif_attach : String → ℕ → FrameState C S → FrameState C S × Bool
  activate_oopif_attach session token st = elim (lookup session st.child_sessions) [
    | none ↦ (st, false)
    | some o ↦ if not (initializes o.phase token) then (st, false) else (
      record st { child_sessions = modify session (with_phase (active token)) st.child_sessions },
      true,
    )
  ]

  unfoldable pub abandon_oopif_attach : String → ℕ → FrameState C S → FrameState C S × Bool
  abandon_oopif_attach session token st = elim (lookup session st.child_sessions) [
    | none ↦ (st, false)
    | some o ↦ if not (initializes o.phase token) then (st, false) else (
      record st {
        cancelled = st.cancelled ++ o.reducer_cancel ∷ [];
        child_sessions = modify session (with_phase (detached token)) st.child_sessions;
      },
      true,
    )
  ]

  unfoldable pub acknowledge_detached : String → ℕ → FrameState C S → FrameState C S × Bool
  acknowledge_detached session token st = elim (lookup session st.child_sessions) [
    | none ↦ (st, false)
    | some o ↦
        if not (is_tombstone o.phase token)
        then (st, false)
        else (record st { child_sessions = remove session st.child_sessions }, true)
  ]

  -- `acknowledge_oopif_initialization` on the state under its lock.
  unfoldable pub acknowledge_oopif_initialization : String → ℕ → FrameState C S → FrameState C S
  acknowledge_oopif_initialization session token st =
      (acknowledge_detached session token (abandon_oopif_attach session token st).0).0
