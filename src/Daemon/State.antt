-- ===== src/Daemon/State.antt =====
-- `DaemonState` of src/daemon/state.rs, as far as sessions, targets and watchers go. A map entry is
-- locked for each operation on it. A connection and a cancellation token are numbers, by which
-- `Arc::ptr_eq` and the tokens' identity are told; `cancelled` holds the tokens that were cancelled.

pub mod Disconnect
pub mod Locks
use browserkit.Common.{
  ℕ, suc, ◌≡◌, Bool, true, false, not, ◌&&◌, ◌||◌, Option, none, some, List, [], ◌∷◌, ◌++◌, String,
  eqb, if◌then◌else◌, ◌==◌, string_eq, pair_eq, keep, map,
}
use browserkit.Common.Assoc.{Assoc, lookup, insert, remove, modify}
use browserkit.Daemon.Session.{Session, SessionTab, mark_disconnected}
use browserkit.Daemon.Dialog.{
  DialogState, DialogKey, token_list, cancel_all_for_session, session_keys,
}

pub data TargetLifecycleEvent : Type 0 where
  created : (session target_id : String) (opener_id : Option String) → TargetLifecycleEvent
  destroyed : (session target_id : String) → TargetLifecycleEvent
  updated : (session target_id url title : String) → TargetLifecycleEvent

pub record DaemonState : Type 0 where
  -- host → connection
  pub browsers : Assoc String ℕ
  pub sessions : Assoc String Session
  pub target_watchers : Assoc String ℕ
  pub console_subscription_tokens : Assoc DialogKey ℕ
  pub dialog_state : DialogState
  -- what was sent to `target_events`, oldest first
  pub target_events : List TargetLifecycleEvent
  -- a signal waits in the channel to the persist task
  pub persist_requested : Bool
  pub cancelled : List ℕ

unfoldable pub request_persist : DaemonState → DaemonState
request_persist s = record s { persist_requested = true }

unfoldable pub send_event : TargetLifecycleEvent → DaemonState → DaemonState
send_event e s = record s { target_events = s.target_events ++ e ∷ [] }

unfoldable pub cancel_tokens : List ℕ → DaemonState → DaemonState
cancel_tokens ts s = record s { cancelled = ts ++ s.cancelled }

abbrev pub is_cancelled : ℕ → List ℕ → Bool
is_cancelled t [] = false
is_cancelled t (c ∷ cs) = if eqb c t then true else is_cancelled t cs

-- src/daemon/console.rs.
unfoldable pub cancel_console_subscription : DialogKey → DaemonState → DaemonState × Bool
unfolding cancel_tokens
cancel_console_subscription key s = elim (lookup key s.console_subscription_tokens) [
  | none ↦ (s, false)
  | some token ↦ (
    cancel_tokens (token ∷ [])
        (record s { console_subscription_tokens = remove key s.console_subscription_tokens }),
    true,
  )
]

-- The loop of `disconnect_sessions_for_host` over the console keys that it has collected.
pub cancel_consoles : List DialogKey → DaemonState → DaemonState
unfolding cancel_console_subscription
cancel_consoles [] s = s
cancel_consoles (k ∷ ks) s = cancel_consoles ks (cancel_console_subscription k s).0

-- `dialog_state.cancel_all_for_session`, with its effect on the tokens.
pub cancel_dialogs : String → DaemonState → DaemonState
unfolding cancel_tokens
cancel_dialogs name s =
    let (d, ts) = cancel_all_for_session name s.dialog_state in
    cancel_tokens ts (record s { dialog_state = d })

-- One round of `disconnect_sessions_for_host`, for a name that it has collected.
pub disconnect_session : String → String → DaemonState → DaemonState
unfolding cancel_consoles cancel_dialogs mark_disconnected
disconnect_session host name s = elim (lookup name s.sessions) [
  | none ↦ s
  | some session ↦
      if not (session.browser_host == host)
      then s
      else cancel_dialogs name (
          cancel_consoles (session_keys name s.console_subscription_tokens)
            (record s { sessions = modify name mark_disconnected s.sessions }))
]

-- `others k` is what other tasks do to the state while round `k` waits for the session's lifecycle
-- lock.
pub disconnect_each :
    (ℕ → DaemonState → DaemonState) → String → List String → ℕ → DaemonState → DaemonState
unfolding disconnect_session
disconnect_each others host [] k s = s
disconnect_each others host (n ∷ ns) k s =
    disconnect_each others host ns (suc k) (disconnect_session host n (others k s))

-- The names of the sessions on a host.
abbrev pub names_on : String → Assoc String Session → List String
names_on host [] = []
names_on host ((n, session) ∷ m) =
    if session.browser_host == host then n ∷ names_on host m else names_on host m

pub disconnect_sessions_for_host :
    (ℕ → DaemonState → DaemonState) → String → DaemonState → DaemonState
unfolding disconnect_each
disconnect_sessions_for_host others host s =
    disconnect_each others host (names_on host s.sessions) 0 s

pub disconnect_browser_runtime_state :
    (ℕ → DaemonState → DaemonState) → String → DaemonState → DaemonState
unfolding cancel_tokens disconnect_sessions_for_host
disconnect_browser_runtime_state others host s = disconnect_sessions_for_host others host (
    cancel_tokens (token_list (lookup host s.target_watchers))
      (record s { target_watchers = remove host s.target_watchers }))

-- Whether the entry of a host is the connection that was lost.
abbrev pub is_connection : ℕ → Option ℕ → Bool
is_connection cdp none = false
is_connection cdp (some c) = eqb c cdp

pub handle_browser_disconnect :
    (ℕ → DaemonState → DaemonState) → String → ℕ → DaemonState → DaemonState
unfolding disconnect_browser_runtime_state request_persist
handle_browser_disconnect others host cdp s =
    if is_connection cdp (lookup host s.browsers)
    then request_persist (
        disconnect_browser_runtime_state others host
          (record s { browsers = remove host s.browsers }))
    else s
