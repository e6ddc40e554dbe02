-- ===== src/Daemon/Targets/Watcher.antt =====
-- The handlers of the target watcher of src/daemon/target_lifecycle.rs. While a handler awaits, other
-- tasks run; so the state that it finds after each wait is an argument of its own, and what the CDP
-- connection answers is one too.
pub mod Ends
pub mod Rechecks
use browserkit.Common.{
  ℕ, ◌≡◌, refl, Bool, true, false, not, ◌||◌, Option, none, some, List, [], ◌∷◌, String, arith,
  if◌then◌else◌, string_eq, is_some, beq_refl, Option-cases, Bool-cases, inl, inr,
}
use browserkit.Daemon.Error.{Result, ok, err}
use browserkit.Daemon.Session.{SessionTab, new_owned}
use browserkit.Daemon.State.{DaemonState}
use browserkit.Daemon.Targets.{
  SessionTabRegistration, registered, already_tracked, is_trackable_page_target, find_target_owner,
  session_for_created_target, register_initialized_session_tab, emit_session_tab_created,
  remove_session_tab, update_session_tab_info, is_text,
}
use browserkit.Daemon.Targets.Owner.{Inv}
use browserkit.Daemon.Targets.Outcome.{
  register_initialized-owner, register_initialized_unchanged, is_registered,
}
use browserkit.Daemon.Targets.Registration.{register_initialized-Inv, remove-Inv, update-Inv}

-- `first` is the state at the event, `d` the one under the session's lifecycle lock.
pub handle_target_destroyed_event : ℕ → DaemonState → DaemonState → String → DaemonState
handle_target_destroyed_event now first d target_id = elim (find_target_owner first target_id) [
  | none ↦ d
  | some name ↦
      if is_text name (find_target_owner d target_id)
      then (remove_session_tab now d target_id).0
      else d
]

pub handle_target_info_changed_event :
    ℕ → DaemonState → DaemonState → (target_id url title : String) → DaemonState
handle_target_info_changed_event now first d target_id url title =
    elim (find_target_owner first target_id) [
      | none ↦ d
      | some name ↦
          if is_text name (find_target_owner d target_id)
          then (update_session_tab_info now d target_id url title).0
          else d
    ]

-- `cdpkit::target::types::TargetInfo`, as far as it is read.
pub record TargetInfo : Type 0 where
  pub target_id : String
  pub type : String
  pub url : String
  pub title : String
  pub opener_id : Option String
  pub browser_context_id : Option String

pub tab_of : TargetInfo → String → SessionTab
unfolding new_owned
tab_of info cdp_session_id = record (new_owned info.target_id info.url info.title) {
  cdp_session_id = cdp_session_id;
}

-- What a handler leaves: the state, whether it asked the browser to attach, the CDP sessions that it
-- detached, and those whose console and dialogs it watches from now on.
pub record Handled : Type 0 where
  pub state : DaemonState
  pub asked : Bool
  pub detached : List String
  pub watched : List String

abbrev pub nothing : Bool → DaemonState → Handled
nothing asked d = record { state = d; asked = asked; detached = []; watched = [] }

abbrev pub detach : String → DaemonState → Handled
detach cdp_session_id d = record {
  state = d;
  asked = true;
  detached = cdp_session_id ∷ [];
  watched = [];
}

-- The last `match` of the handler, on the answer to the registration.
pub after_registration :
    String → TargetInfo → String → DaemonState × Result SessionTabRegistration → Handled
after_registration name info cdp_session_id (d, ok registered) = record {
  state = emit_session_tab_created d name info.target_id info.opener_id;
  asked = true;
  detached = [];
  watched = cdp_session_id ∷ [];
}
after_registration name info cdp_session_id (d, ok already_tracked) = detach cdp_session_id d
after_registration name info cdp_session_id (d, err e) = detach cdp_session_id d

-- The handler from the attachment on.
pub after_attach : ℕ → DaemonState → TargetInfo → Bool → String → Option String → Handled
unfolding after_registration tab_of
after_attach now d info prepared name none = nothing true d
after_attach now d info prepared name (some cdp_session_id) =
    if not prepared
    then detach cdp_session_id d
    else after_registration name info cdp_session_id
        (register_initialized_session_tab now d name (tab_of info cdp_session_id))

-- The handler once it holds the lifecycle lock of the session that it has chosen. `locked` is the
-- state then, and `d` the one when the target is attached and its domains are enabled. `attach` is
-- the CDP session that the browser gives, if it does, and `prepared` whether the domains could be
-- enabled.
pub created_under_lock :
    ℕ → (locked d : DaemonState) → String → TargetInfo → Option String → Bool → String → Handled
unfolding after_attach
created_under_lock now locked d host info attach prepared name =
    if not (
        is_text name
          (session_for_created_target locked host info.opener_id info.browser_context_id))
      || is_some (find_target_owner locked info.target_id)
    then nothing false d
    else after_attach now d info prepared name attach

-- `first` is the state at the event.
pub handle_target_created_event :
    ℕ → (first locked d : DaemonState) → String → TargetInfo → Option String → Bool → Handled
unfolding created_under_lock
handle_target_created_event now first locked d host info attach prepared =
    if not (is_trackable_page_target info.type)
    then nothing false d
    else elim (session_for_created_target first host info.opener_id info.browser_context_id) [
      | none ↦ nothing false d
      | some name ↦ created_under_lock now locked d host info attach prepared name
    ]
