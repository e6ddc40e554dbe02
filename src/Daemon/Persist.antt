-- ===== src/Daemon/Persist.antt =====
-- src/daemon/persist.rs: what of the daemon's state is saved to a file and restored from it. The
-- file, its bytes and serde's reading of them are arguments.
pub mod Validate
pub mod Accepted
pub mod Disabled
pub mod Restored
pub mod Saved
pub mod RoundTrip
use browserkit.Common.{
  ℕ, Bool, true, false, Option, none, some, List, [], ◌∷◌, map, String, if◌then◌else◌, string_eq,
}
use browserkit.Common.Assoc.{Assoc, insert}
use browserkit.Common.Sort.{sort_by}
use browserkit.Daemon.Session.{
  Session, SessionTab, SessionMode, TabOwnership, owned, attached, new_owned, new_attached,
  mark_disconnected,
}
use browserkit.Daemon.State.{DaemonState}

pub record PersistedSessionTabV1 : Type 0 where
  pub target_id : String
  pub url : String
  pub title : String
  pub ownership : TabOwnership

pub record PersistedSessionV1 : Type 0 where
  pub name : String
  pub mode : SessionMode
  pub browser_host : String
  pub browser_context_id : Option String
  pub tabs : List PersistedSessionTabV1
  pub active_target : Option String
  pub created_at : ℕ
  pub last_active : ℕ
  pub disconnected : Bool

pub record PersistedStateV1 : Type 0 where
  pub version : ℕ
  pub sessions : List PersistedSessionV1

unfoldable pub empty : PersistedStateV1
empty = record { version = 1; sessions = [] }

unfoldable pub from_tab : SessionTab → PersistedSessionTabV1
from_tab tab = record {
  target_id = tab.target_id;
  url = tab.url;
  title = tab.title;
  ownership = tab.ownership;
}

unfoldable pub from_session : Session → PersistedSessionV1
from_session s = record {
  name = s.name;
  mode = s.mode;
  browser_host = s.browser_host;
  browser_context_id = s.browser_context_id;
  tabs = sort_by (λ t. t.target_id) (map (λ e. from_tab e.1) s.tabs);
  active_target = s.active_target;
  created_at = s.created_at;
  last_active = s.last_active;
  disconnected = s.disconnected;
}

-- A restored tab has no CDP session and no console log.
unfoldable pub into_tab : PersistedSessionTabV1 → SessionTab
into_tab t = elim t.ownership [
  | owned ↦ new_owned t.target_id t.url t.title
  | attached ↦ new_attached t.target_id t.url t.title ""
]

-- The loop of `into_session`: a later tab takes the place of an earlier one of the same target.
unfoldable pub into_tabs :
    List PersistedSessionTabV1 → Assoc String SessionTab → Assoc String SessionTab
into_tabs [] tabs = tabs
into_tabs (t ∷ ts) tabs = into_tabs ts (insert t.target_id (into_tab t) tabs)

unfoldable pub into_session : PersistedSessionV1 → Session
into_session p = record {
  name = p.name;
  mode = p.mode;
  browser_host = p.browser_host;
  browser_context_id = p.browser_context_id;
  tabs = into_tabs p.tabs [];
  active_target = p.active_target;
  created_at = p.created_at;
  last_active = p.last_active;
  disconnected = p.disconnected;
  pending_tab_reservations = 0;
}

-- What the file allows. `E` is the type of the errors of the file system and of serde.
pub record LoadStateResult (R : Type 0) : Type 0 where
  pub state : PersistedStateV1
  pub persist_disabled : Bool
  pub persist_disabled_reason : Option R

unfoldable pub disabled_empty_result : {R : Type 0} → R → LoadStateResult R
disabled_empty_result reason = record {
  state = empty;
  persist_disabled = true;
  persist_disabled_reason = some reason;
}

-- The fields of `DaemonState` that persistence keeps.
pub record PersistFlags (R : Type 0) : Type 0 where
  pub persist_disabled : Bool
  pub persist_disabled_reason : Option R
  pub persist_last_error : Option R

-- The loop of `prepare_loaded_state`.
unfoldable pub restore_sessions :
    List PersistedSessionV1 → Assoc String Session → Assoc String Session
restore_sessions [] m = m
restore_sessions (p ∷ ps) m =
    restore_sessions ps (insert p.name (mark_disconnected (into_session p)) m)

unfoldable pub prepare_loaded_state :
    {R : Type 0} → LoadStateResult R → DaemonState × PersistFlags R → DaemonState × PersistFlags R
prepare_loaded_state loaded (s, flags) = (
  record s { sessions = restore_sessions loaded.state.sessions s.sessions },
  record flags {
    persist_disabled = if loaded.persist_disabled then true else flags.persist_disabled;
    persist_disabled_reason = loaded.persist_disabled_reason;
  },
)

unfoldable pub build_persisted_state : DaemonState → PersistedStateV1
build_persisted_state s = record {
  version = 1;
  sessions = sort_by (λ p. p.name) (map (λ e. from_session e.1) s.sessions);
}

-- `none` is `Ok(())`.
unfoldable pub record_runtime_persist_result :
    {R : Type 0} → Option R → PersistFlags R → PersistFlags R × Option R
record_runtime_persist_result result flags = (record flags { persist_last_error = result }, result)

-- What `do_persist` writes, if anything; `write` is what the file system answers, and `disabled`
-- the text for a reason that is not known.
unfoldable pub do_persist :
    {R : Type 0}
    → R
    → (PersistedStateV1 → Option R)
    → DaemonState
    → PersistFlags R
    → PersistFlags R × Option R × Option PersistedStateV1
do_persist disabled write s flags =
    if flags.persist_disabled
    then (flags, some (elim flags.persist_disabled_reason [ none ↦ disabled | some r ↦ r ]), none)
    else let persisted = build_persisted_state s in
      let (after, answer) = record_runtime_persist_result (write persisted) flags in
      (after, answer, some persisted)
