-- ===== src/Examples/Tabs.antt =====
-- Tabs that come and go in src/daemon.
use mathlib.Core.Option
use browserkit.Common.{
  ℕ, String, eqb, ◌==◌, ◌≡◌, refl, true, not, ◌&&◌, none, some, List, [], ◌∷◌, ◌++◌, arith,
  if◌then◌else◌, string_eq, is_some, All,
}
use browserkit.Common.Assoc.{lookup, remove, lookup-remove, contains_key}
use browserkit.Daemon.State.{DaemonState, destroyed, handle_browser_disconnect, is_connection}
use browserkit.Daemon.State.Locks.{Call}
use browserkit.Daemon.State.Disconnect.{marked_entry, handle_browser_disconnect-lookup}
use browserkit.Daemon.Targets.{
  find_target_owner, opener_session, find_owner, register_initialized_session_tab,
  remove_session_tab, session_for_created_target, is_text,
}
use browserkit.Daemon.Targets.Owner.{Inv}
use browserkit.Daemon.Targets.Registration
use browserkit.Daemon.Targets.Registration.{registers_reserved, step-Inv}
use browserkit.Daemon.Targets.Outcome.{
  is_registered, is_tracked, register_initialized-owner, remove_session_tab-owner,
}
use browserkit.Daemon.Targets.Capacity
use browserkit.Daemon.Targets.Capacity.{InLimit, step-InLimit}
use browserkit.Daemon.Targets.Watcher.{
  TargetInfo, handle_target_created_event, handle_target_destroyed_event,
}
use browserkit.Daemon.Targets.Watcher.Ends.{Ends, handle_target_created_event-Ends}
use browserkit.Daemon.Targets.Watcher.Rechecks.{
  agree, reported, handle_target_destroyed_event-owner,
}
use browserkit.Daemon.Close.{
  Connection, Allowed, close_all, session_tab_close_requests, close_all-Allowed,
}
use browserkit.Daemon.Console.{ConsoleEntry}
use browserkit.Daemon.Session.Tabs.{Change, adds, removes}
use browserkit.Examples.Fixtures.{tab, work, demo, demo-UniqueKeys, demo-Inv}

abbrev first_tab : String
first_tab = "t1"

step-Inv_example : Inv (Registration.step 7 demo (registers_reserved "work" (tab "t2"))).sessions
step-Inv_example = step-Inv 7 demo (registers_reserved "work" (tab "t2")) demo-Inv

demo-InLimit : InLimit 2 demo
demo-InLimit = (omega arith, (omega arith, tt))

abbrev registers_tab : Capacity.Op 2 demo
registers_tab = Capacity.registers "work" (tab "t2") work (unfold lookup in refl) (omega arith)

step-InLimit_example : InLimit 2 (Capacity.step 7 2 demo registers_tab)
step-InLimit_example = step-InLimit 7 2 demo registers_tab (omega arith) (omega arith) demo-InLimit

register_initialized-owner_example :
    let r = register_initialized_session_tab 7 demo "lab" (tab "t2") in
    let owner = find_target_owner demo "t2" in
    (is_registered r.1 ≡ (not (is_some owner) && contains_key "lab" demo.sessions))
    × (is_tracked r.1 ≡ is_text "lab" owner)
    × (find_target_owner r.0 "t2"
        ≡ (if is_registered r.1 && true then some "lab" else find_target_owner demo "t2"))
register_initialized-owner_example = register_initialized-owner 7 demo "lab" (tab "t2") "t2"

remove_session_tab-owner_example :
    let r = remove_session_tab 7 demo "t1" in
    let owner = find_target_owner demo "t1" in
    (Option.map (λ p. p.0) r.1 ≡ owner)
    × (find_target_owner r.0 "t1" ≡ none)
    × (r.0.target_events
        ≡ demo.target_events ++ (elim owner [ none ↦ [] | some n ↦ destroyed n "t1" ∷ [] ]))
remove_session_tab-owner_example = remove_session_tab-owner 7 demo "t1" "t1" demo-Inv

chosen : session_for_created_target demo "host" (some "t1") none ≡ some "work"
unfolding session_for_created_target opener_session find_target_owner find_owner lookup
chosen = refl

abbrev popup : TargetInfo
popup = record {
  target_id = "t3";
  type = "page";
  url = "https://a.example/p";
  title = "P";
  opener_id = some "t1";
  browser_context_id = none;
}

handle_target_created_event-Ends_example :
    Ends demo popup "s9"
      (handle_target_created_event 7 demo demo demo "host" popup (some "s9") true)
handle_target_created_event-Ends_example =
    handle_target_created_event-Ends 7 demo demo demo "host" popup "s9" true

handle_target_destroyed_event-owner_example :
    let after = handle_target_destroyed_event 7 demo demo "t1" in
    let owner = find_target_owner demo "t1" in
    let same = agree (find_target_owner demo "t1") owner in
    (find_target_owner after "t1"
      ≡ (if same && (first_tab == first_tab) then none else find_target_owner demo "t1"))
    × (after.target_events ≡ demo.target_events ++ reported same owner "t1")
handle_target_destroyed_event-owner_example =
    handle_target_destroyed_event-owner 7 demo demo "t1" "t1" demo-Inv

-- Another task that lets the session `lab` go while a round waits.
abbrev without_lab : ℕ → DaemonState → DaemonState
without_lab k s = record s { sessions = remove "lab" s.sessions }

without_lab-lookup :
    (k : ℕ) (s : DaemonState) → lookup "work" (without_lab k s).sessions ≡ lookup "work" s.sessions
without_lab-lookup k s = ground (arith, lookup-remove "lab" "work" s.sessions)

handle_browser_disconnect-lookup_example :
    lookup "work" (handle_browser_disconnect without_lab "host" 3 demo).sessions
    ≡ marked_entry
        (is_connection 3 (lookup "host" demo.browsers))
        "host"
        (lookup "work" demo.sessions)
handle_browser_disconnect-lookup_example =
    handle_browser_disconnect-lookup without_lab "host" "work" 3 demo demo-UniqueKeys
      without_lab-lookup

abbrev quiet : Connection
quiet = some (λ c. none)

close_all-Allowed_example :
    All
      (Allowed (tab "t1" ∷ tab "t2" ∷ []))
      (close_all quiet (session_tab_close_requests (tab "t1" ∷ tab "t2" ∷ [])))
close_all-Allowed_example = close_all-Allowed quiet (tab "t1" ∷ tab "t2" ∷ [])

abbrev entry : ConsoleEntry
entry = record { level = "log"; text = "hello"; timestamp = "1" }

abbrev session_changes : List Change
session_changes =
    adds 2 "t1" "https://a.example" "A" ∷ adds 3 "t2" "https://b.example" "B" ∷ removes 4 "t2" ∷ []

abbrev bind : Call
bind = record { alive = λ l. true; fresh = 7; name = "work" }

abbrev sweep : Call
sweep = record { alive = λ l. eqb l 7; fresh = 8; name = "lab" }
