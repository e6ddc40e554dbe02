-- ===== src/Daemon/Console/Routing.antt =====
-- `record_console_entry_for_session` of src/daemon/console.rs: which tab's log an entry goes to. The log
-- is shared by all clones of a tab, so it is the one in the session's map here.
use browserkit.Common.{
  ◌≡◌, Bool, true, false, ◌&&◌, Option, none, some, String, arith, if◌then◌else◌, ◌==◌, string_eq,
  is_some, Option-cases, inl, inr,
}
use browserkit.Common.Assoc.{lookup, modify, lookup-modify}
use browserkit.Daemon.Console.{ConsoleEntry, ConsoleLog, push_console_entry}
use browserkit.Daemon.Session.{Session, SessionTab}
use browserkit.Daemon.State.{DaemonState}

abbrev push_to : ConsoleEntry → SessionTab → SessionTab
push_to entry tab = record tab { console_log = push_console_entry entry tab.console_log }

abbrev push_in : String → ConsoleEntry → Session → Session
push_in target_id entry s = record s { tabs = modify target_id (push_to entry) s.tabs }

pub record_console_entry_for_session :
    DaemonState → String → String → ConsoleEntry → DaemonState × Bool
record_console_entry_for_session d session_name target_id entry =
    elim (lookup session_name d.sessions) [
      | none ↦ (d, false)
      | some session ↦ elim (lookup target_id session.tabs) [
        | none ↦ (d, false)
        | some tab ↦
            (record d { sessions = modify session_name (push_in target_id entry) d.sessions }, true)
      ]
    ]

abbrev tab_log : Option SessionTab → Option ConsoleLog
tab_log none = none
tab_log (some tab) = some tab.console_log

abbrev session_log : String → Option Session → Option ConsoleLog
session_log target_id none = none
session_log target_id (some s) = tab_log (lookup target_id s.tabs)

-- The log of a session's tab, if there is the tab.
abbrev pub log_of : String → String → DaemonState → Option ConsoleLog
log_of name target_id d = session_log target_id (lookup name d.sessions)

abbrev pub pushed : ConsoleEntry → Option ConsoleLog → Option ConsoleLog
pushed entry none = none
pushed entry (some log) = some (push_console_entry entry log)

-- An entry is recorded exactly if the session has the tab: it is pushed onto the log of that tab of
-- that session, and every other log of every session is as before.
pub record_console_entry-log_of :
    (d : DaemonState) (name other target_id t : String) (entry : ConsoleEntry)
    → let (e, recorded) = record_console_entry_for_session d name target_id entry in
      (recorded ≡ is_some (log_of name target_id d))
      × (log_of other t e ≡ (
          if (name == other) && (target_id == t)
          then pushed entry (log_of other t d)
          else log_of other t d))
unfolding record_console_entry_for_session
record_console_entry-log_of d name other target_id t entry =
    elim (Option-cases (lookup name d.sessions)) [
      | inl e ↦ ground (arith, string_eq.beq_iff name other)
      | inr (s, e) ↦ elim (Option-cases (lookup target_id s.tabs)) [
        | inl f ↦ ground (arith, string_eq.beq_iff name other, string_eq.beq_iff target_id t)
        | inr (tab, f) ↦ ground (
          arith,
          string_eq.beq_iff name other,
          string_eq.beq_iff target_id t,
          lookup-modify name other (push_in target_id entry) d.sessions,
          lookup-modify target_id t (push_to entry) s.tabs,
        )
      ]
    ]
