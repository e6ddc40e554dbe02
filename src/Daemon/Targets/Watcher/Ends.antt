-- ===== src/Daemon/Targets/Watcher/Ends.antt =====
-- How the handler of a created target of src/daemon/target_lifecycle.rs may end.
use browserkit.Common.{
  ℕ, ◌≡◌, refl, Bool, true, false, not, ◌||◌, none, some, [], ◌∷◌, String, arith, string_eq,
  is_some, beq_refl, Option-cases, Bool-cases, inl, inr,
}
use browserkit.Daemon.Error.{Result, ok, err}
use browserkit.Common.Assoc.{lookup, lookup-modify, lookup-insert}
use browserkit.Daemon.Session.{Session, SessionTab, touch}
use browserkit.Daemon.State.{DaemonState}
use browserkit.Daemon.Targets.{
  SessionTabRegistration, registered, already_tracked, is_trackable_page_target, find_target_owner,
  find_owner, track_tab, session_for_created_target, register_initialized_session_tab,
  emit_session_tab_created, is_text,
}
use browserkit.Daemon.Targets.Outcome.{
  register_initialized-owner, register_initialized_unchanged, is_registered,
}
use browserkit.Daemon.Targets.Watcher.{
  TargetInfo, tab_of, Handled, after_registration, created_under_lock, handle_target_created_event,
}

-- How the handler may end, when `sid` is the CDP session that the browser would give.
pub data Ends (d : DaemonState) (info : TargetInfo) (sid : String) (h : Handled) : Type 0 where
  untouched : h.asked ≡ false → h.state ≡ d → h.detached ≡ [] → h.watched ≡ [] → Ends d info sid h
  dropped : h.state ≡ d → h.detached ≡ sid ∷ [] → h.watched ≡ [] → Ends d info sid h
  tracked :
      (name : String) (s : Session) (tab : SessionTab)
      → find_target_owner d info.target_id ≡ none
      → lookup name h.state.sessions ≡ some s
      → lookup info.target_id s.tabs ≡ some tab
      → tab.cdp_session_id ≡ sid
      → find_target_owner h.state info.target_id ≡ some name
      → h.detached ≡ []
      → h.watched ≡ sid ∷ []
      → Ends d info sid h

-- A registered tab is in the tabs of its session.
registered_tab :
    (now : ℕ) (d : DaemonState) (name : String) (tab : SessionTab)
    → let r = register_initialized_session_tab now d name tab in
      is_registered r.1 ≡ true
      → (s : Session) × (lookup name r.0.sessions ≡ some s)
        × (lookup tab.target_id s.tabs ≡ some tab)
unfolding register_initialized_session_tab find_target_owner track_tab touch
registered_tab now d name tab h = elim (Option-cases (find_owner tab.target_id d.sessions)) [
  | inr (o, f) ↦ absurd (ground (arith, string_eq.beq_iff o name))
  | inl f ↦ elim (Option-cases (lookup name d.sessions)) [
    | inl e ↦ absurd (ground arith)
    | inr (s, e) ↦ (
      track_tab now tab s,
      ground (arith, lookup-modify name name (track_tab now tab) d.sessions, beq_refl name),
      ground (arith, lookup-insert tab.target_id tab.target_id tab s.tabs, beq_refl tab.target_id),
    )
  ]
]

answer-Ends :
    (d : DaemonState) (name : String) (info : TargetInfo) (sid : String)
    (r : DaemonState × Result SessionTabRegistration)
    → (is_registered r.1 ≡ true → find_target_owner d info.target_id ≡ none)
    → (is_registered r.1 ≡ true → find_target_owner r.0 info.target_id ≡ some name)
    → (is_registered r.1 ≡ true
        → (s : Session) × (tab : SessionTab) × (lookup name r.0.sessions ≡ some s)
          × (lookup info.target_id s.tabs ≡ some tab)
          × (tab.cdp_session_id ≡ sid))
    → (is_registered r.1 ≡ false → r.0 ≡ d)
    → Ends d info sid (after_registration name info sid r)
unfolding after_registration emit_session_tab_created find_target_owner
answer-Ends d name info sid (e, ok registered) free owner held same =
    let (s, tab, found, has_tab, sid_of) = held refl in
    tracked name s tab (free refl) found has_tab sid_of (owner refl) refl refl
answer-Ends d name info sid (e, ok already_tracked) free owner held same =
    dropped (same refl) refl refl
answer-Ends d name info sid (e, err x) free owner held same = dropped (same refl) refl refl

registration-Ends :
    (now : ℕ) (d : DaemonState) (name : String) (info : TargetInfo) (sid : String)
    → Ends d info sid (
        after_registration name info sid
          (register_initialized_session_tab now d name (tab_of info sid)))
unfolding tab_of
registration-Ends now d name info sid =
    let tab = tab_of info sid in
    let (registers, tracks, owner) = register_initialized-owner now d name tab info.target_id in
    answer-Ends d name info sid (register_initialized_session_tab now d name tab)
      (λ h. ground (arith, registers)) (λ h. ground (arith, owner, beq_refl info.target_id))
      (λ h.
        let (s, found, has_tab) = registered_tab now d name tab h in (s, tab, found, has_tab, refl))
      (register_initialized_unchanged now d name tab)

locked-Ends :
    (now : ℕ) (locked d : DaemonState) (host : String) (info : TargetInfo) (sid : String)
    (prepared : Bool) (name : String)
    → Ends d info sid (created_under_lock now locked d host info (some sid) prepared name)
unfolding created_under_lock
locked-Ends now locked d host info sid prepared name =
    elim (Bool-cases (
      not (
        is_text name
          (session_for_created_target locked host info.opener_id info.browser_context_id))
      || is_some (find_target_owner locked info.target_id))) [
        | inl e ↦ rw (e, created_under_lock) (untouched refl refl refl refl)
        | inr e ↦
            rw (e, created_under_lock)
              (elim (Bool-cases prepared) [
                | inl p ↦ rw p (registration-Ends now d name info sid)
                | inr p ↦ rw p (dropped refl refl refl)
              ])
      ]

-- If the handler of a created target asks the browser to attach and gets a CDP session, then either
-- the target was tracked by nobody and is now tracked by a session of the daemon, as a tab that has
-- this CDP session, which is watched; or the CDP session is detached and the state is as it was. If it does not ask, nothing changes.
pub handle_target_created_event-Ends :
    (now : ℕ) (first locked d : DaemonState) (host : String) (info : TargetInfo) (sid : String)
    (prepared : Bool)
    → Ends d info sid (handle_target_created_event now first locked d host info (some sid) prepared)
unfolding handle_target_created_event
handle_target_created_event-Ends now first locked d host info sid prepared =
    elim (Bool-cases (is_trackable_page_target info.type)) [
      | inr e ↦ rw (e, handle_target_created_event) (untouched refl refl refl refl)
      | inl e ↦
          elim (Option-cases
            (session_for_created_target first host info.opener_id info.browser_context_id)) [
              | inl f ↦ rw (e, handle_target_created_event) (rw f (untouched refl refl refl refl))
              | inr (name, f) ↦
                  rw (e, handle_target_created_event)
                    (rw f (locked-Ends now locked d host info sid prepared name))
            ]
    ]
