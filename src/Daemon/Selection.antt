-- ===== src/Daemon/Selection.antt =====
-- src/daemon/handler/common.rs: the session and the tab that a request is about. An error is its
-- code.
use browserkit.Common.{
  ℕ, ◌≡◌, subst, sym, inl, inr, true, Option, none, some, [], String, if◌then◌else◌, is_some-value,
  Bool-cases, Option-cases, string_eq, arith,
}
use browserkit.Common.Assoc.{lookup, contains_key, AllValues-lookup}
use browserkit.Daemon.Error.{
  Result, ok, err, session_not_found, session_no_tab, target_not_found, invalid_argument,
  chrome_disconnected,
}
use browserkit.Daemon.Session.{Session, SessionTab, check_connected}
use browserkit.Daemon.State.{DaemonState}
use browserkit.Daemon.Targets.Owner.{Inv, TabsValid}

-- A field of the JSON parameters: missing, a text, or something else.
pub data Field : Type 0 where
  missing other : Field
  text : String → Field

pub record SessionTargetContext : Type 0 where
  pub session_name : String
  pub target_id : String
  pub browser_host : String
  pub browser_context_id : Option String
  pub cdp : ℕ
  pub cdp_session_id : String

-- `?`.
abbrev pub and_then : {A B : Type 0} → Result A → (A → Result B) → Result B
and_then (err e) f = err e
and_then (ok a) f = f a

unfoldable pub optional_string_param : Field → Result (Option String)
optional_string_param missing = ok none
optional_string_param (text t) = ok (some t)
optional_string_param other = err invalid_argument

unfoldable pub resolve_session_selection : DaemonState → Option String → Result String
resolve_session_selection s param =
    let name : String = elim param [ none ↦ "default" | some n ↦ n ] in
    if contains_key name s.sessions then ok name else err session_not_found

unfoldable pub resolve_target_selection : DaemonState → String → Option String → Result String
resolve_target_selection s name param = elim (lookup name s.sessions) [
  | none ↦ err session_not_found
  | some session ↦ elim param [
    | some target ↦ if contains_key target session.tabs then ok target else err target_not_found
    | none ↦ elim session.active_target [ none ↦ err session_no_tab | some t ↦ ok t ]
  ]
]

unfoldable pub context_of :
    DaemonState → String → String → Session → SessionTab → Result SessionTargetContext
context_of s name target session tab = elim (lookup session.browser_host s.browsers) [
  | none ↦ err chrome_disconnected
  | some cdp ↦ ok (record {
    session_name = name;
    target_id = target;
    browser_host = session.browser_host;
    browser_context_id = session.browser_context_id;
    cdp = cdp;
    cdp_session_id = tab.cdp_session_id;
  })
]

-- The rest of `resolve_session_target`, from the session on.
unfoldable pub resolve_in : DaemonState → String → String → Session → Result SessionTargetContext
resolve_in s name target session = and_then (check_connected session) (λ u.
    elim (lookup target session.tabs) [
      | none ↦ err target_not_found
      | some tab ↦ context_of s name target session tab
    ])

unfoldable pub resolve_session_target : DaemonState → Field → Field → Result SessionTargetContext
resolve_session_target s session target = and_then (optional_string_param session) (λ session_param.
    and_then (optional_string_param target) (λ target_param.
      and_then (resolve_session_selection s session_param) (λ name.
        and_then (resolve_target_selection s name target_param) (λ id.
          elim (lookup name s.sessions) [
            | none ↦ err session_not_found
            | some found ↦ resolve_in s name id found
          ]))))

-- What the answer may be, when no tab is named: the active tab of the session with its browser's
-- connection, or the one error that its state is the reason for.
pub data IsSelected (s : DaemonState) (name : String) (session : Session)
    : Result SessionTargetContext → Type 0 where
  no_tab : session.tabs ≡ [] → IsSelected s name session (err session_no_tab)
  offline : session.disconnected ≡ true → IsSelected s name session (err chrome_disconnected)
  no_browser :
      lookup session.browser_host s.browsers ≡ none
      → IsSelected s name session (err chrome_disconnected)
  selected :
      (target : String) (tab : SessionTab) (cdp : ℕ)
      → session.active_target ≡ some target
      → lookup target session.tabs ≡ some tab
      → lookup session.browser_host s.browsers ≡ some cdp
      → IsSelected s name session (
          ok (record {
            session_name = name;
            target_id = target;
            browser_host = session.browser_host;
            browser_context_id = session.browser_context_id;
            cdp = cdp;
            cdp_session_id = tab.cdp_session_id;
          }))

resolve_named :
    (s : DaemonState) (name : String) (session : Session)
    → lookup name s.sessions ≡ some session
    → (session.active_target ≡ none
        → resolve_session_target s (text name) missing ≡ err session_no_tab)
      × ((target : String)
          → session.active_target ≡ some target
          → resolve_session_target s (text name) missing ≡ resolve_in s name target session)
unfolding resolve_session_target optional_string_param resolve_session_selection
    resolve_target_selection
resolve_named s name session found = (λ e. ground arith, λ target e. ground arith)

-- A tab that is there.
resolve_in-IsSelected :
    (s : DaemonState) (name target : String) (session : Session) (tab : SessionTab)
    → session.active_target ≡ some target
    → lookup target session.tabs ≡ some tab
    → IsSelected s name session (resolve_in s name target session)
unfolding resolve_in context_of check_connected
resolve_in-IsSelected s name target session tab active there =
    elim (Bool-cases session.disconnected) [
      | inl e ↦
          let answer : resolve_in s name target session ≡ err chrome_disconnected = ground arith in
          subst (IsSelected s name session) (sym answer) (offline e)
      | inr e ↦ elim (Option-cases (lookup session.browser_host s.browsers)) [
        | inl e' ↦
            let answer : resolve_in s name target session ≡ err chrome_disconnected =
              ground arith in
            subst (IsSelected s name session) (sym answer) (no_browser e')
        | inr (cdp, e') ↦
            let answer : resolve_in s name target session
                ≡ ok (record {
                  session_name = name;
                  target_id = target;
                  browser_host = session.browser_host;
                  browser_context_id = session.browser_context_id;
                  cdp = cdp;
                  cdp_session_id = tab.cdp_session_id;
                }) =
              ground arith in
            subst (IsSelected s name session) (sym answer) (selected target tab cdp active there e')
      ]
    ]

-- In a state of the daemon whose sessions satisfy the invariant, a request that names a session and
-- no tab: the answer is that the session has no tab, only if it has none; that the browser is
-- disconnected, only if the session is or its browser is not connected; or else the active tab of
-- the session, which is one of its tabs, with the connection of its browser.
pub resolve_session_target-IsSelected :
    (s : DaemonState) (name : String) (session : Session)
    → Inv s.sessions
    → lookup name s.sessions ≡ some session
    → IsSelected s name session (resolve_session_target s (text name) missing)
resolve_session_target-IsSelected s name session inv found =
    let valid = AllValues-lookup TabsValid name session s.sessions inv.tabs found in
    let (without, within) = resolve_named s name session found in
    elim (Option-cases session.active_target) [
      | inl e ↦
          let empty : session.tabs ≡ [] = rw e at valid.active in
          subst (IsSelected s name session) (sym (without e)) (no_tab empty)
      | inr (target, e) ↦
          let (tab, there) = is_some-value (lookup target session.tabs) (rw e at valid.active) in
          subst (IsSelected s name session) (sym (within target e))
            (resolve_in-IsSelected s name target session tab e there)
    ]
