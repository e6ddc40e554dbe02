-- ===== src/Daemon/Session.antt =====
-- `Session` and `SessionTab` of src/daemon/session.rs. The clock is an argument, `now`. The console
-- log of a tab is modelled in Daemon/Console.antt.

pub mod Tabs
use browserkit.Common.{
  ℕ, ◌+◌, Bool, true, false, ◌||◌, Option, none, some, [], String, ltb, eqb, u64_max, if◌then◌else◌,
  length, ◌==◌, string_eq,
}
use browserkit.Common.Assoc.{Assoc, insert, remove, first_key}
use browserkit.Daemon.Console.{ConsoleLog}
use browserkit.Daemon.Error.{Result, ok, err, chrome_disconnected}

pub data SessionMode : Type 0 where
  default isolated : SessionMode

pub data TabOwnership : Type 0 where
  owned attached : TabOwnership

pub record SessionTab : Type 0 where
  pub target_id : String
  pub url : String
  pub title : String
  pub cdp_session_id : String
  pub ownership : TabOwnership
  pub console_log : ConsoleLog

unfoldable pub new_owned : String → String → String → SessionTab
new_owned target_id url title = record {
  target_id = target_id;
  url = url;
  title = title;
  cdp_session_id = "";
  ownership = owned;
  console_log = [];
}

unfoldable pub new_attached : String → String → String → String → SessionTab
new_attached target_id url title cdp_session_id = record {
  target_id = target_id;
  url = url;
  title = title;
  cdp_session_id = cdp_session_id;
  ownership = attached;
  console_log = [];
}

pub record Session : Type 0 where
  pub name : String
  pub mode : SessionMode
  pub browser_host : String
  pub browser_context_id : Option String
  pub tabs : Assoc String SessionTab
  pub active_target : Option String
  pub created_at : ℕ
  pub last_active : ℕ
  pub disconnected : Bool
  pub pending_tab_reservations : ℕ

pub new_default : ℕ → String → Session
new_default now browser_host = record {
  name = "default";
  mode = default;
  browser_host = browser_host;
  browser_context_id = none;
  tabs = [];
  active_target = none;
  created_at = now;
  last_active = now;
  disconnected = false;
  pending_tab_reservations = 0;
}

pub new_isolated : ℕ → String → String → String → Session
new_isolated now name browser_host browser_context_id = record {
  name = name;
  mode = isolated;
  browser_host = browser_host;
  browser_context_id = some browser_context_id;
  tabs = [];
  active_target = none;
  created_at = now;
  last_active = now;
  disconnected = false;
  pending_tab_reservations = 0;
}

unfoldable pub touch : ℕ → Session → Session
touch now s = record s { last_active = now }

pub add_tab : ℕ → String → String → String → Session → Session
unfolding new_owned touch
add_tab now target_id url title s = touch now (record s {
  tabs = insert target_id (new_owned target_id url title) s.tabs;
  active_target = some target_id;
})

-- `active_target.as_deref() == Some(target_id)`.
abbrev pub is_target : String → Option String → Bool
is_target target_id none = false
is_target target_id (some t) = t == target_id

-- The tabs without one, and the active target: another tab if it was the one.
abbrev pub without_tab : String → Session → Session
without_tab target_id s =
    let rest = remove target_id s.tabs in
    record s {
      tabs = rest;
      active_target =
          if is_target target_id s.active_target then first_key rest else s.active_target;
    }

pub remove_tab : ℕ → String → Session → Session
unfolding touch
remove_tab now target_id s = touch now (without_tab target_id s)

pub tab_count : Session → ℕ
tab_count s = length s.tabs

-- `usize::saturating_add`, where `usize` has 64 bits.
abbrev pub saturating_add : ℕ → ℕ → ℕ
saturating_add a b = if ltb (a + b) u64_max then a + b else u64_max

unfoldable pub can_add_tab : ℕ → Session → Bool
can_add_tab max s = eqb max 0 || ltb (saturating_add (length s.tabs) s.pending_tab_reservations) max

unfoldable pub mark_disconnected : Session → Session
mark_disconnected s = record s { disconnected = true }

unfoldable pub check_connected : Session → Result (Unit {0})
check_connected s = if s.disconnected then err chrome_disconnected else ok tt
