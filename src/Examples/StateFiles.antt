-- ===== src/Examples/StateFiles.antt =====
-- A state of the daemon that is saved and restored, in src/daemon/persist.rs.
use browserkit.Common.{
  ℕ, ◌≡◌, refl, true, false, Option, none, some, [], ◌∷◌, String, ◌⊎◌, inr, is_some, string_eq, ◌↔◌,
  ◌||◌, has, add,
}
use browserkit.Common.Assoc.{lookup, contains_key, UniqueKeys, AllValues}
use browserkit.Daemon.Session.{Session}
use browserkit.Daemon.State.{DaemonState}
use browserkit.Daemon.Targets.Owner.{Inv}
use browserkit.Daemon.Persist.{
  PersistedStateV1, PersistFlags, from_tab, from_session, build_persisted_state,
  prepare_loaded_state, do_persist,
}
use browserkit.Daemon.Persist.Validate.{
  Seen, validate_persisted_state, check_sessions, check_session, check_name, check_host, check_mode,
  check_context, check_tabs, check_tab, check_active, is_blank, is_padded, load_state_from_path,
  FileRead, content, failed, DisabledReason, read_failed,
}
use browserkit.Daemon.Persist.Restored.{IsWaiting, load_state-restored}
use browserkit.Daemon.Persist.Disabled.{IsReadable, load_state-do_persist}
use browserkit.Daemon.Persist.Saved.{Named}
use browserkit.Daemon.Persist.RoundTrip.{reset, load_state-build, NamedTabs, NamedSessions}
use browserkit.Common.Sort.{sort_by, sort_in}
use browserkit.Examples.Fixtures.{tab, work, lab, demo}

-- A session on the default context, with a tab and a reservation, and an isolated one.
abbrev main_session : Session
main_session = record work { name = "default" }

abbrev saved : DaemonState
saved = record demo { sessions = ("default", main_session) ∷ ("lab", lab) ∷ [] }

-- The readers of a file whose text is always that of the saved state.
abbrev parse : String → String ⊎ PersistedStateV1
parse text = inr (build_persisted_state saved)

abbrev version : PersistedStateV1 → Option ℕ
version st = some st.version

abbrev read : PersistedStateV1 → String ⊎ PersistedStateV1
read st = inr st

abbrev flags : PersistFlags (DisabledReason String String)
flags = record {
  persist_disabled = false;
  persist_disabled_reason = none;
  persist_last_error = none;
}

abbrev fresh_daemon : DaemonState
fresh_daemon = record demo { sessions = [] }

load_state-restored_example :
    let after =
      (prepare_loaded_state
        (load_state_from_path (λ text. text) parse version read (content "{}"))
        (fresh_daemon, flags)).0 in
    Inv after.sessions × AllValues IsWaiting after.sessions
load_state-restored_example =
    load_state-restored (λ text. text) parse version read (content "{}") fresh_daemon flags refl

abbrev denied : FileRead String
denied = failed "permission denied"

load_state-do_persist_example :
    let (after, answer, written) =
      do_persist
        (read_failed "disabled")
        (λ st. none)
        demo
        (prepare_loaded_state
          (load_state_from_path (λ text. text) parse version read denied)
          (fresh_daemon, flags)).1 in
    ((is_some written ≡ true) ↔ IsReadable (λ text. text) parse version read denied)
    × ((is_some written || is_some answer) ≡ true)
load_state-do_persist_example =
    load_state-do_persist (λ text. text) parse version read denied fresh_daemon demo flags
      (read_failed "disabled") (λ st. none) refl

saved-UniqueKeys : UniqueKeys saved.sessions
unfolding lookup
saved-UniqueKeys = (refl, (refl, tt))

saved-NamedSessions : NamedSessions saved.sessions
unfolding Named from_session
saved-NamedSessions = (refl, (refl, tt))

main-NamedTabs : NamedTabs main_session.tabs
unfolding Named from_tab
main-NamedTabs = (refl, tt)

main-UniqueKeys : UniqueKeys main_session.tabs
unfolding lookup
main-UniqueKeys = (refl, tt)

main-found : lookup "default" saved.sessions ≡ some main_session
unfolding lookup
main-found = refl

-- What the checks of a load have seen of it.
abbrev saved_seen : Seen
saved_seen = ("lab" ∷ "default" ∷ [], "t1" ∷ [])

saved-passes :
    validate_persisted_state (λ text. text) (build_persisted_state saved) ≡ inr saved_seen
unfolding validate_persisted_state build_persisted_state from_session from_tab check_sessions
    sort_by sort_in check_session check_name check_host check_mode check_context check_tabs
    check_tab check_active is_blank is_padded has add
saved-passes = refl

load_state-build_example :
    let restored =
      (prepare_loaded_state
        (load_state_from_path (λ text. text) parse version read (content "{}"))
        (fresh_daemon, flags)).0.sessions in
    ((m : String) → contains_key m restored ≡ contains_key m saved.sessions)
    × (y : Session) × (lookup "default" restored ≡ some y)
    × (record y { tabs = main_session.tabs }
        ≡ record main_session { disconnected = true; pending_tab_reservations = 0 })
    × ((t : String)
        → lookup t y.tabs
          ≡ elim (lookup t main_session.tabs) [ none ↦ none | some tab ↦ some (reset tab) ])
load_state-build_example =
    load_state-build (λ text. text) parse version read "{}" (build_persisted_state saved) saved_seen
      "default" main_session saved fresh_daemon flags saved-UniqueKeys saved-NamedSessions
      main-found main-UniqueKeys main-NamedTabs refl refl refl saved-passes refl
