-- ===== src/Daemon/Persist/RoundTrip.antt =====
-- What is saved by src/daemon/persist.rs comes back: the sessions and tabs, found by their names.
use browserkit.Common.{
  ℕ, ◌≡◌, refl, ap, ◌∙◌, ◌⊎◌, inl, inr, true, Option, none, some, List, [], ◌∷◌, map, String,
  is_some, Option-cases, string_eq, arith,
}
use browserkit.Common.Assoc.{Assoc, lookup, insert, UniqueKeys, contains_key}
use browserkit.Daemon.Session.{Session, SessionTab, new_owned, new_attached, mark_disconnected}
use browserkit.Daemon.State.{DaemonState}
use browserkit.Common.Sort.{sort_by}
use browserkit.Daemon.Persist.{
  PersistedSessionTabV1, PersistedSessionV1, from_tab, from_session, into_tab, into_tabs,
  into_session, restore_sessions, build_persisted_state, PersistedStateV1, PersistFlags,
  prepare_loaded_state,
}
use browserkit.Daemon.Persist.Validate.{
  Seen, validate_persisted_state, load_value, load_state_from_path, content, DisabledReason,
}
use browserkit.Daemon.Persist.Saved.{insert_all, Named, lookup-saved}

into_tabs-insert_all :
    (ts : List PersistedSessionTabV1) (m : Assoc String SessionTab)
    → into_tabs ts m ≡ insert_all (λ t. t.target_id) into_tab ts m
unfolding into_tabs insert_all
into_tabs-insert_all [] m = refl
into_tabs-insert_all (t ∷ ts) m = into_tabs-insert_all ts (insert t.target_id (into_tab t) m)

-- What a restore makes of one saved session.
pub revived : PersistedSessionV1 → Session
revived p = mark_disconnected (into_session p)

restore_sessions-insert_all :
    (ps : List PersistedSessionV1) (m : Assoc String Session)
    → restore_sessions ps m ≡ insert_all (λ p. p.name) revived ps m
unfolding restore_sessions insert_all revived
restore_sessions-insert_all [] m = refl
restore_sessions-insert_all (p ∷ ps) m =
    restore_sessions-insert_all ps (insert p.name (mark_disconnected (into_session p)) m)

abbrev pub NamedTabs : Assoc String SessionTab → Type 0
NamedTabs = Named (λ t. t.target_id) from_tab

abbrev pub NamedSessions : Assoc String Session → Type 0
NamedSessions = Named (λ p. p.name) from_session

-- A restored tab is as it was, without its CDP session and its console log.
pub reset : SessionTab → SessionTab
reset tab = record tab { cdp_session_id = ""; console_log = [] }

into-from_tab : (tab : SessionTab) → into_tab (from_tab tab) ≡ reset tab
unfolding into_tab from_tab new_owned new_attached reset
into-from_tab tab = ground arith

into-from_session-tabs :
    (t : String) (s : Session)
    → UniqueKeys s.tabs
    → NamedTabs s.tabs
    → lookup t (into_session (from_session s)).tabs
      ≡ elim (lookup t s.tabs) [ none ↦ none | some tab ↦ some (reset tab) ]
unfolding into_session from_session
into-from_session-tabs t s u n =
    let saved = sort_by (λ p. p.target_id) (map (λ e. from_tab e.1) s.tabs) in
    let filled = ap (lookup t) (into_tabs-insert_all saved []) in
    let found = lookup-saved (λ p. p.target_id) from_tab into_tab t s.tabs n u in
    elim (Option-cases (lookup t s.tabs)) [
      | inl e ↦ filled ∙ found ∙ rw e refl
      | inr (tab, e) ↦ filled ∙ found ∙ rw e (ap some (into-from_tab tab))
    ]

revived_of : Session → Session
revived_of s = revived (from_session s)

is_some-map :
    {A B : Type 0} (f : A → B) (o : Option A)
    → is_some (elim o [ none ↦ none | some a ↦ some (f a) ]) ≡ is_some o
is_some-map f none = refl
is_some-map f (some a) = refl

restore_sessions-build :
    (n : String) (x : Session) (s : DaemonState)
    → UniqueKeys s.sessions
    → NamedSessions s.sessions
    → lookup n s.sessions ≡ some x
    → UniqueKeys x.tabs
    → NamedTabs x.tabs
    → let restored = restore_sessions (build_persisted_state s).sessions [] in
      ((m : String) → contains_key m restored ≡ contains_key m s.sessions)
      × (y : Session) × (lookup n restored ≡ some y)
      × (record y { tabs = x.tabs }
          ≡ record x { disconnected = true; pending_tab_reservations = 0 })
      × ((t : String)
          → lookup t y.tabs ≡ elim (lookup t x.tabs) [ none ↦ none | some tab ↦ some (reset tab) ])
unfolding build_persisted_state revived revived_of mark_disconnected into_session from_session
restore_sessions-build n x s u named found ut nt =
    let saved = sort_by (λ p. p.name) (map (λ e. from_session e.1) s.sessions) in
    let filled = restore_sessions-insert_all saved [] in
    let find_saved =
      λ (m : String). lookup-saved (λ p. p.name) from_session revived m s.sessions named u in
    (
      λ m.
          ap (λ r. contains_key m r) filled
          ∙ ap is_some (find_saved m)
          ∙ is_some-map revived_of (lookup m s.sessions),
      revived (from_session x),
      ap (lookup n) filled ∙ find_saved n ∙ rw found refl,
      refl,
      λ t. into-from_session-tabs t x ut nt,
    )

-- A load of a state that was saved and that passes the checks gives its sessions to the daemon.
load_state-sessions :
    {E J V : Type 0} (trim : String → String) (from_str : String → J ⊎ V)
    (version_of : V → Option ℕ) (from_value : V → J ⊎ PersistedStateV1) (text : String) (v : V)
    (st : PersistedStateV1) (seen : Seen) (fresh : DaemonState)
    (flags : PersistFlags (DisabledReason E J))
    → st.version ≡ 1
    → from_str text ≡ inr v
    → version_of v ≡ some st.version
    → from_value v ≡ inr st
    → validate_persisted_state trim st ≡ inr seen
    → fresh.sessions ≡ []
    → (prepare_loaded_state
        (load_state_from_path trim from_str version_of from_value (content text))
        (fresh, flags)).0.sessions
      ≡ restore_sessions st.sessions []
unfolding prepare_loaded_state load_state_from_path load_value
load_state-sessions trim from_str version_of from_value text v st seen fresh flags one p n h c e =
    let version : version_of v ≡ some 1 = n ∙ ap some one in
    rw (p, load_state_from_path)
      (rw (version, load_state_from_path) (rw (h, load_value) (rw (c, load_value) (rw e refl))))

-- What is saved comes back. There is a session `n`; the sessions, and the tabs of the session `n`,
-- have distinct keys, which are their names. The text of the file is read back by serde as the state
-- that was saved, with its version, and that state passes the checks of a load. Then after a load
-- into a daemon without sessions: the same names have sessions; the session `n` is as it was but
-- disconnected and without reservations; it has the same tabs, each without its CDP session and its
-- console log.
pub load_state-build :
    {E J V : Type 0} (trim : String → String) (from_str : String → J ⊎ V)
    (version_of : V → Option ℕ) (from_value : V → J ⊎ PersistedStateV1) (text : String) (v : V)
    (seen : Seen) (n : String) (x : Session) (s fresh : DaemonState)
    (flags : PersistFlags (DisabledReason E J))
    → UniqueKeys s.sessions
    → NamedSessions s.sessions
    → lookup n s.sessions ≡ some x
    → UniqueKeys x.tabs
    → NamedTabs x.tabs
    → from_str text ≡ inr v
    → version_of v ≡ some (build_persisted_state s).version
    → from_value v ≡ inr (build_persisted_state s)
    → validate_persisted_state trim (build_persisted_state s) ≡ inr seen
    → fresh.sessions ≡ []
    → let restored =
        (prepare_loaded_state
          (load_state_from_path trim from_str version_of from_value (content text))
          (fresh, flags)).0.sessions in
      ((m : String) → contains_key m restored ≡ contains_key m s.sessions)
      × (y : Session) × (lookup n restored ≡ some y)
      × (record y { tabs = x.tabs }
          ≡ record x { disconnected = true; pending_tab_reservations = 0 })
      × ((t : String)
          → lookup t y.tabs ≡ elim (lookup t x.tabs) [ none ↦ none | some tab ↦ some (reset tab) ])
load_state-build trim from_str version_of from_value text v seen n x s fresh flags u named found ut
      nt p version h c e =
    let one : (build_persisted_state s).version ≡ 1 = unfold build_persisted_state in refl in
    rw
      (load_state-sessions trim from_str version_of from_value text v (build_persisted_state s) seen
        fresh flags one p version h c e)
      (restore_sessions-build n x s u named found ut nt)
