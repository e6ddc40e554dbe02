-- ===== src/Daemon/Close.antt =====
-- src/daemon/target_close.rs: how a session's tab and a session's browser context are given up. The
-- CDP connection is an argument: `none`, or what it answers to a command, an error's text or
-- nothing. A function answers the commands that it has sent.
use browserkit.Common.{
  ◌≡◌, refl, Bool, true, false, Option, none, some, List, [], ◌∷◌, ◌++◌, String, if◌then◌else◌,
  ◌==◌, string_eq, map, All, All-append, ◌⊎◌, inl, inr, Option-cases, Bool-cases, is_some, ◌&&◌,
}
use browserkit.Daemon.Session.{
  SessionMode, default, isolated, SessionTab, TabOwnership, owned, attached,
}

pub record SessionTargetCloseRequest : Type 0 where
  pub target_id : String
  pub cdp_session_id : String
  pub ownership : TabOwnership

pub from_tab : SessionTab → SessionTargetCloseRequest
from_tab tab = record {
  target_id = tab.target_id;
  cdp_session_id = tab.cdp_session_id;
  ownership = tab.ownership;
}

pub data SessionTargetCloseAction : Type 0 where
  close_target : String → SessionTargetCloseAction
  detach_from_target : String → SessionTargetCloseAction
  already_detached : SessionTargetCloseAction

-- The error's `action`, a text of the source, is told by the constructor's name.
pub data SessionTargetCloseError : Type 0 where
  close_disconnected detach_disconnected : String → SessionTargetCloseError
  close_failed detach_failed : String → String → SessionTargetCloseError

pub data Result (X A : Type 0) : Type 0 where
  ok : A → Result X A
  err : X → Result X A

action_for : TabOwnership → SessionTargetCloseRequest → SessionTargetCloseAction
action_for owned request = close_target request.target_id
action_for attached request =
    if request.cdp_session_id == ""
    then already_detached
    else detach_from_target request.cdp_session_id

pub session_target_close_action : SessionTargetCloseRequest → SessionTargetCloseAction
unfolding action_for
session_target_close_action request = action_for request.ownership request

pub session_tab_close_requests : List SessionTab → List SessionTargetCloseRequest
unfolding from_tab
session_tab_close_requests = map from_tab

-- The commands of the CDP target domain.
pub data Command : Type 0 where
  closes detaches disposes : String → Command

-- A connection: what the browser answers to a command.
abbrev pub Connection : Type 0
Connection = Option (Command → Option String)

-- The send of a command, with the errors for no connection and for a refusal.
send : {X A : Type 0} → Connection → Command → X → (String → X) → A → Result X A × List Command
send none command missing failed a = (err missing, [])
send (some browser) command missing failed a = elim (browser command) [
  | none ↦ (ok a, command ∷ [])
  | some source ↦ (err (failed source), command ∷ [])
]

perform :
    Connection
    → SessionTargetCloseRequest
    → SessionTargetCloseAction
    → Result SessionTargetCloseError SessionTargetCloseAction × List Command
unfolding send
perform cdp request (close_target target_id) =
    send cdp (closes target_id) (close_disconnected request.target_id)
      (close_failed request.target_id) (close_target target_id)
perform cdp request (detach_from_target cdp_session_id) =
    send cdp (detaches cdp_session_id) (detach_disconnected request.target_id)
      (detach_failed request.target_id) (detach_from_target cdp_session_id)
perform cdp request already_detached = (ok already_detached, [])

pub close_session_target :
    Connection
    → SessionTargetCloseRequest
    → Result SessionTargetCloseError SessionTargetCloseAction × List Command
unfolding perform session_target_close_action
close_session_target cdp request = perform cdp request (session_target_close_action request)

pub data SessionContextDisposeError : Type 0 where
  dispose_disconnected : String → SessionContextDisposeError
  dispose_failed : String → String → SessionContextDisposeError

pub dispose_session_browser_context :
    Connection
    → String
    → SessionMode
    → Option String
    → Result SessionContextDisposeError Bool × List Command
unfolding send
dispose_session_browser_context cdp session_name default context = (ok false, [])
dispose_session_browser_context cdp session_name isolated none = (ok false, [])
dispose_session_browser_context cdp session_name isolated (some context) =
    send cdp (disposes context) (dispose_disconnected session_name) (dispose_failed session_name)
      true

-- All tabs of a session, in the order of the list.
pub close_all : Connection → List SessionTargetCloseRequest → List Command
close_all cdp [] = []
close_all cdp (r ∷ rs) = (close_session_target cdp r).1 ++ close_all cdp rs

-- Whether a command is one that a tab's owner allows: only an owned tab's target is closed, and an
-- attached tab's CDP session is detached.
abbrev pub Allowed : List SessionTab → Command → Type 0
Allowed [] command = ⊥
Allowed (tab ∷ tabs) (closes t) =
    ((tab.ownership ≡ owned) × (tab.target_id ≡ t)) ⊎ Allowed tabs (closes t)
Allowed (tab ∷ tabs) (detaches s) =
    ((tab.ownership ≡ attached) × (tab.cdp_session_id ≡ s)) ⊎ Allowed tabs (detaches s)
Allowed (tab ∷ tabs) (disposes c) = Allowed tabs (disposes c)

send-All :
    {X A : Type 0} (P : Command → Type 0) (cdp : Connection) (command : Command) (missing : X)
    (failed : String → X) (a : A)
    → P command
    → All P (send cdp command missing failed a).1
unfolding send
send-All P none command missing failed a h = tt
send-All P (some browser) command missing failed a h = elim (Option-cases (browser command)) [
  | inl e ↦ rw (e, send, All) (h, tt)
  | inr (x, e) ↦ rw (e, send, All) (h, tt)
]

perform-Allowed :
    (cdp : Connection) (tab : SessionTab) (tabs : List SessionTab) (o : TabOwnership)
    → tab.ownership ≡ o
    → All (Allowed (tab ∷ tabs)) (perform cdp (from_tab tab) (action_for o (from_tab tab))).1
unfolding perform from_tab action_for
perform-Allowed cdp tab tabs owned h = send-All _ cdp (closes tab.target_id) _ _ _ (inl (h, refl))
perform-Allowed cdp tab tabs attached h = elim (Bool-cases (tab.cdp_session_id == "")) [
  | inl e ↦ rw e tt
  | inr e ↦ rw e (send-All _ cdp (detaches tab.cdp_session_id) _ _ _ (inl (h, refl)))
]

sent_for :
    (cdp : Connection) (tab : SessionTab) (tabs : List SessionTab)
    → All (Allowed (tab ∷ tabs)) (close_session_target cdp (from_tab tab)).1
unfolding close_session_target from_tab
sent_for cdp tab tabs = perform-Allowed cdp tab tabs tab.ownership refl

weaken :
    (tab : SessionTab) (tabs : List SessionTab) (cs : List Command)
    → All (Allowed tabs) cs
    → All (Allowed (tab ∷ tabs)) cs
weaken tab tabs [] a = tt
weaken tab tabs (closes t ∷ cs) a = (inr a.0, weaken tab tabs cs a.1)
weaken tab tabs (detaches t ∷ cs) a = (inr a.0, weaken tab tabs cs a.1)
weaken tab tabs (disposes t ∷ cs) a = (a.0, weaken tab tabs cs a.1)

-- Whatever the browser answers, giving up a session's tabs closes no target but those of tabs that
-- it owns, and detaches no CDP session but those of tabs that it has attached to.
pub close_all-Allowed :
    (cdp : Connection) (tabs : List SessionTab)
    → All (Allowed tabs) (close_all cdp (session_tab_close_requests tabs))
unfolding close_all session_tab_close_requests
close_all-Allowed cdp [] = tt
close_all-Allowed cdp (tab ∷ tabs) =
    All-append (Allowed (tab ∷ tabs)) (close_session_target cdp (from_tab tab)).1 _
      (sent_for cdp tab tabs) (weaken tab tabs _ (close_all-Allowed cdp tabs))

abbrev is_isolated : SessionMode → Bool
is_isolated isolated = true
is_isolated default = false

-- A browser context is disposed of only for an isolated session that has one, by one command, and
-- only if there is a connection.
pub dispose_lem :
    (cdp : Connection) (name : String) (mode : SessionMode) (context : Option String)
    → (dispose_session_browser_context cdp name mode context).1 ≡ (elim context [
      | none ↦ []
      | some c ↦ if is_isolated mode && is_some cdp then disposes c ∷ [] else []
    ])
unfolding dispose_session_browser_context send
dispose_lem cdp name default none = refl
dispose_lem cdp name default (some c) = refl
dispose_lem cdp name isolated none = refl
dispose_lem none name isolated (some c) = refl
dispose_lem (some browser) name isolated (some c) = elim (Option-cases (browser (disposes c))) [
  | inl e ↦ rw (e, dispose_session_browser_context, send) refl
  | inr (x, e) ↦ rw (e, dispose_session_browser_context, send) refl
]
