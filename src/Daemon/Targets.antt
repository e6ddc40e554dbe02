-- ===== src/Daemon/Targets.antt =====
-- src/daemon/target_lifecycle.rs: which session a browser target belongs to. Registration holds
-- `target_registration_lock`, so each function is one step of the state. The clock is `now`.

pub mod Owner
pub mod Registration
pub mod Outcome
pub mod Capacity
pub mod Routing
pub mod Watcher
use browserkit.Common.{
  arith, ℕ, suc, ◌+◌, ◌-◌, ◌≡◌, Bool, true, false, not, ◌&&◌, ◌||◌, Option, none, some, List, [],
  ◌∷◌, ◌++◌, String, eqb, if◌then◌else◌, ◌==◌, string_eq, pair_eq, is_some, saturating_inc,
}
use browserkit.Common.Assoc.{lookup-insert, Assoc, lookup, insert, remove, modify, contains_key}
use browserkit.Daemon.Error.{
  ErrorCode, Result, ok, err, session_not_found, tab_limit_exceeded, target_already_attached,
}
use browserkit.Daemon.Session.{
  Session, SessionTab, SessionMode, default, isolated, touch, can_add_tab, without_tab, new_owned,
}
use browserkit.Daemon.Dialog.{DialogState, cancel_subscription}
use browserkit.Daemon.State.{
  DaemonState, TargetLifecycleEvent, created, destroyed, updated, request_persist, send_event,
  cancel_tokens, cancel_console_subscription, is_cancelled,
}

pub is_trackable_page_target : String → Bool
is_trackable_page_target type = type == "page"

pub data SessionTabRegistration : Type 0 where
  registered already_tracked : SessionTabRegistration

unfoldable pub find_owner : String → Assoc String Session → Option String
find_owner target_id [] = none
find_owner target_id ((n, s) ∷ m) =
    if contains_key target_id s.tabs then some n else find_owner target_id m

unfoldable pub find_target_owner : DaemonState → String → Option String
unfolding find_owner
find_target_owner s target_id = find_owner target_id s.sessions

-- Whether an option holds a text: `as_deref() == Some(text)`.
abbrev pub is_text : String → Option String → Bool
is_text a none = false
is_text a (some b) = b == a

abbrev pub is_isolated : SessionMode → Bool
is_isolated isolated = true
is_isolated default = false

-- The filter of `session_for_created_target`.
abbrev pub is_context : String → String → Session → Bool
is_context host context s =
    is_isolated s.mode && (s.browser_host == host && is_text context s.browser_context_id)

pub contexts : String → String → Assoc String Session → List String
contexts host context [] = []
contexts host context ((n, s) ∷ m) =
    if is_context host context s then n ∷ contexts host context m else contexts host context m

-- The only element of a list.
abbrev pub only : List String → Option String
only (x ∷ []) = some x
only _ = none

abbrev pub is_on_host : String → Option Session → Bool
is_on_host host none = false
is_on_host host (some s) = s.browser_host == host

-- The owner of the opener, if it is on the host.
unfoldable pub opener_session : DaemonState → String → Option String → Option String
opener_session s host none = none
opener_session s host (some opener) = elim (find_target_owner s opener) [
  | none ↦ none
  | some owner ↦ if is_on_host host (lookup owner s.sessions) then some owner else none
]

pub context_session : DaemonState → String → Option String → Option String
unfolding contexts
context_session s host none = none
context_session s host (some context) = only (contexts host context s.sessions)

unfoldable pub session_for_created_target :
    DaemonState → String → Option String → Option String → Option String
unfolding opener_session context_session
session_for_created_target s host opener_id browser_context_id =
    elim (opener_session s host opener_id) [
      | some owner ↦ some owner
      | none ↦ context_session s host browser_context_id
    ]

pub add_reservation : Session → Session
add_reservation s = record s {
  pending_tab_reservations = saturating_inc s.pending_tab_reservations;
}

pub drop_reservation : Session → Session
drop_reservation s = record s { pending_tab_reservations = s.pending_tab_reservations - 1 }

-- A tab enters a session and becomes its active target.
unfoldable pub track_tab : ℕ → SessionTab → Session → Session
unfolding touch
track_tab now tab s =
    touch now
      (record s { tabs = insert tab.target_id tab s.tabs; active_target = some tab.target_id })

-- `sessions.get_mut(name)`, a change, and the entry's release.
abbrev pub with_session : String → (Session → Session) → DaemonState → DaemonState
with_session name f s = record s { sessions = modify name f s.sessions }

pub reserve_session_tab : DaemonState → String → ℕ → DaemonState × Result (Unit {0})
unfolding add_reservation can_add_tab
reserve_session_tab s name max = elim (lookup name s.sessions) [
  | none ↦ (s, err session_not_found)
  | some session ↦
      if not (can_add_tab max session)
      then (s, err tab_limit_exceeded)
      else (with_session name add_reservation s, ok tt)
]

pub release_session_tab_reservation : DaemonState → String → DaemonState
unfolding drop_reservation
release_session_tab_reservation s name = with_session name drop_reservation s

-- The answer for a target that has an owner.
abbrev pub owned_answer : String → String → Result SessionTabRegistration
owned_answer owner name = if owner == name then ok already_tracked else err target_already_attached

pub register_reserved_session_tab :
    ℕ → DaemonState → String → SessionTab → DaemonState × Result SessionTabRegistration
unfolding find_target_owner drop_reservation track_tab request_persist
register_reserved_session_tab now s name tab = elim (lookup name s.sessions) [
  | none ↦ (s, err session_not_found)
  | some session ↦ elim (find_target_owner s tab.target_id) [
    | some owner ↦ (with_session name drop_reservation s, owned_answer owner name)
    | none ↦ (
      request_persist (with_session name (λ v. track_tab now tab (drop_reservation v)) s),
      ok registered,
    )
  ]
]

pub register_initialized_session_tab :
    ℕ → DaemonState → String → SessionTab → DaemonState × Result SessionTabRegistration
unfolding find_target_owner track_tab request_persist
register_initialized_session_tab now s name tab = elim (find_target_owner s tab.target_id) [
  | some owner ↦ (s, owned_answer owner name)
  | none ↦ elim (lookup name s.sessions) [
    | none ↦ (s, err session_not_found)
    | some session ↦ (request_persist (with_session name (track_tab now tab) s), ok registered)
  ]
]

abbrev registered_only : Result SessionTabRegistration → Result (Unit {0})
registered_only (ok registered) = ok tt
registered_only (ok already_tracked) = err target_already_attached
registered_only (err e) = err e

pub register_session_tab : ℕ → DaemonState → String → SessionTab → DaemonState × Result (Unit {0})
unfolding register_initialized_session_tab
register_session_tab now s name tab =
    let (t, answer) = register_initialized_session_tab now s name tab in (t, registered_only answer)

pub emit_session_tab_created : DaemonState → String → String → Option String → DaemonState
unfolding send_event
emit_session_tab_created s name target_id opener_id =
    send_event (created name target_id opener_id) s

-- What a removal does beside the session: the tab's console and dialog watchers are cancelled, the
-- event is sent, and the state is to be saved.
pub after_removal : String → String → DaemonState → DaemonState
unfolding cancel_console_subscription cancel_tokens cancel_subscription send_event request_persist
after_removal name target_id s =
    let t = (cancel_console_subscription (name, target_id) s).0 in
    let (d, ts) = cancel_subscription (name, target_id) t.dialog_state in
    request_persist
      (send_event (destroyed name target_id) (cancel_tokens ts (record t { dialog_state = d })))

pub remove_session_tab : ℕ → DaemonState → String → DaemonState × Option (String × SessionTab)
unfolding find_target_owner after_removal touch
remove_session_tab now s target_id = elim (find_target_owner s target_id) [
  | none ↦ (s, none)
  | some name ↦ elim (lookup name s.sessions) [
    | none ↦ (s, none)
    | some session ↦ elim (lookup target_id session.tabs) [
      | none ↦ (s, none)
      | some tab ↦ (
        after_removal name target_id
            (with_session name (λ v. touch now (without_tab target_id v)) s),
        some (name, tab),
      )
    ]
  ]
]

-- The tab's new address and title.
pub retitle : ℕ → String → String → String → Session → Session
unfolding touch
retitle now target_id url title s =
    touch now
      (record s { tabs = modify target_id (λ t. record t { url = url; title = title }) s.tabs })

pub update_session_tab_info : ℕ → DaemonState → String → String → String → DaemonState × Bool
unfolding find_target_owner retitle send_event request_persist
update_session_tab_info now s target_id url title = elim (find_target_owner s target_id) [
  | none ↦ (s, false)
  | some name ↦ elim (lookup name s.sessions) [
    | none ↦ (s, false)
    | some session ↦ elim (lookup target_id session.tabs) [
      | none ↦ (s, false)
      | some tab ↦ if not (not (tab.url == url) || not (tab.title == title)) then (s, false) else (
        request_persist (
            send_event (updated name target_id url title)
              (with_session name (retitle now target_id url title) s)),
        true,
      )
    ]
  ]
]

-- `token` is the one that `make_token` would give.
pub ensure_target_watcher_token_with_status : DaemonState → String → ℕ → DaemonState × ℕ × Bool
ensure_target_watcher_token_with_status s host token =
    let made = record s { target_watchers = insert host token s.target_watchers } in
    elim (lookup host s.target_watchers) [
      | some old ↦
          if not (is_cancelled old s.cancelled) then (s, old, false) else (made, token, true)
      | none ↦ (made, token, true)
    ]

-- A second wish for a watcher's token, before the first is cancelled, gets the first one and starts
-- no second watcher.
ensure_twice :
    (s : DaemonState) (host : String) (token other : ℕ)
    → is_cancelled token s.cancelled ≡ false
    → lookup host s.target_watchers ≡ none
    → ensure_target_watcher_token_with_status
        (ensure_target_watcher_token_with_status s host token).0
        host
        other
      ≡ ((ensure_target_watcher_token_with_status s host token).0, token, false)
unfolding ensure_target_watcher_token_with_status
ensure_twice s host token other live free = ground (
  arith,
  free,
  live,
  lookup-insert host host token s.target_watchers,
  string_eq.beq_iff host host,
)
