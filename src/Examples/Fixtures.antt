-- ===== src/Examples/Fixtures.antt =====
-- A small state of the daemon: two sessions, one with a tab and a reservation.
use browserkit.Common.{refl, false, none, some, [], ◌∷◌, String, arith, string_eq}
use browserkit.Common.Assoc.{lookup, UniqueKeys}
use browserkit.Daemon.Session.{Session, SessionTab, default, isolated, owned}
use browserkit.Daemon.Dialog.{DialogState, DialogOpening, accept}
use browserkit.Daemon.State.{DaemonState}
use browserkit.Daemon.Targets.Owner.{Inv}

abbrev pub tab : String → SessionTab
tab id = record {
  target_id = id;
  url = "https://a.example";
  title = "A";
  cdp_session_id = "s1";
  ownership = owned;
  console_log = [];
}

abbrev pub work : Session
work = record {
  name = "work";
  mode = default;
  browser_host = "host";
  browser_context_id = none;
  tabs = ("t1", tab "t1") ∷ [];
  active_target = some "t1";
  created_at = 1;
  last_active = 1;
  disconnected = false;
  pending_tab_reservations = 1;
}

abbrev pub lab : Session
lab = record work {
  name = "lab";
  mode = isolated;
  browser_context_id = some "c1";
  tabs = [];
  active_target = none;
  pending_tab_reservations = 0;
}

abbrev pub dialogs : DialogState
dialogs = record {
  pending = [];
  policies = ("work", accept) ∷ [];
  subscription_tokens = (("work", "t1"), 6) ∷ [];
}

abbrev pub opening : DialogOpening
opening = record {
  dialog_type = "prompt";
  message = "Name?";
  default_prompt = some "me";
  url = "https://a.example";
}

abbrev pub demo : DaemonState
demo = record {
  browsers = ("host", 3) ∷ [];
  sessions = ("work", work) ∷ ("lab", lab) ∷ [];
  target_watchers = ("host", 5) ∷ [];
  console_subscription_tokens = [];
  dialog_state = dialogs;
  target_events = [];
  persist_requested = false;
  cancelled = [];
}

pub demo-UniqueKeys : UniqueKeys demo.sessions
unfolding lookup
demo-UniqueKeys = (refl, (refl, tt))

pub demo-Inv : Inv demo.sessions
unfolding lookup
demo-Inv = record {
  names = (refl, (refl, tt));
  tabs =
      (record { unique = (refl, tt); active = refl }, (record { unique = tt; active = refl }, tt));
  single = λ t. ground arith;
}
