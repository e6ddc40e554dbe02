-- ===== src/Daemon/State/Disconnect.antt =====
-- What the loss of a browser connection does to the sessions of src/daemon/state.rs.
use browserkit.Common.{
  ℕ, suc, ◌≡◌, refl, ◌∙◌, Bool, true, false, ◌&&◌, Option, none, some, List, [], ◌∷◌, String, arith,
  if◌then◌else◌, ◌==◌, string_eq,
}
use browserkit.Common.Assoc.{Assoc, remove, lookup, modify, lookup-modify, UniqueKeys}
use browserkit.Daemon.Session.{Session, mark_disconnected}
use browserkit.Daemon.Dialog.{DialogKey, session_keys, token_list}
use browserkit.Daemon.State.{
  DaemonState, cancel_console_subscription, cancel_consoles, cancel_dialogs, disconnect_session,
  disconnect_each, names_on, handle_browser_disconnect, is_connection, cancel_tokens,
}

cancel_consoles-sessions :
    (ks : List DialogKey) (d : DaemonState) → (cancel_consoles ks d).sessions ≡ d.sessions
unfolding cancel_consoles cancel_console_subscription
cancel_consoles-sessions [] d = refl
cancel_consoles-sessions (k ∷ ks) d =
    cancel_consoles-sessions ks (cancel_console_subscription k d).0 ∙ ground arith

-- A session after the loss of the host's connection.
abbrev pub marked : Bool → String → Session → Session
marked lost host s = if lost && (s.browser_host == host) then mark_disconnected s else s

abbrev pub marked_entry : Bool → String → Option Session → Option Session
marked_entry lost host none = none
marked_entry lost host (some s) = some (marked lost host s)

abbrev listed : String → List String → Bool
listed n [] = false
listed n (k ∷ ks) = if k == n then true else listed n ks

disconnect_session-lookup :
    (host k n : String) (d : DaemonState)
    → lookup n (disconnect_session host k d).sessions
      ≡ marked_entry (k == n) host (lookup n d.sessions)
unfolding disconnect_session cancel_dialogs
disconnect_session-lookup host k n d =
    let hit = record d { sessions = modify k mark_disconnected d.sessions } in
    ground (
      arith,
      string_eq.beq_iff k n,
      lookup-modify k n mark_disconnected d.sessions,
      cancel_consoles-sessions (session_keys k d.console_subscription_tokens) hit,
    )

disconnect_each-lookup :
    (others : ℕ → DaemonState → DaemonState) (host n : String) (ns : List String) (i : ℕ)
    (d : DaemonState)
    → ((k : ℕ) → (s : DaemonState) → lookup n (others k s).sessions ≡ lookup n s.sessions)
    → lookup n (disconnect_each others host ns i d).sessions
      ≡ marked_entry (listed n ns) host (lookup n d.sessions)
unfolding disconnect_each
disconnect_each-lookup others host n [] i d left = ground arith
disconnect_each-lookup others host n (k ∷ ks) i d left =
    unfold mark_disconnected in
    ground (
      arith,
      disconnect_each-lookup others host n ks (suc i) (disconnect_session host k (others i d)) left,
      disconnect_session-lookup host k n (others i d),
      left i d,
    )

on_host : String → Option Session → Bool
on_host host none = false
on_host host (some s) = s.browser_host == host

listed-names_on :
    (host n : String) (m : Assoc String Session)
    → UniqueKeys m
    → listed n (names_on host m) ≡ on_host host (lookup n m)
unfolding lookup on_host
listed-names_on host n [] u = refl
listed-names_on host n ((k, s) ∷ m) u =
    ground (arith, string_eq.beq_iff k n, listed-names_on host n m u.1)

marked-on_host :
    (host : String) (o : Option Session)
    → marked_entry (on_host host o) host o ≡ marked_entry true host o
unfolding on_host
marked-on_host host none = refl
marked-on_host host (some s) = ground arith

pub handle_browser_disconnect-lookup :
    (others : ℕ → DaemonState → DaemonState) (host n : String) (cdp : ℕ) (d : DaemonState)
    → UniqueKeys d.sessions
    → ((k : ℕ) → (s : DaemonState) → lookup n (others k s).sessions ≡ lookup n s.sessions)
    → lookup n (handle_browser_disconnect others host cdp d).sessions
      ≡ marked_entry (is_connection cdp (lookup host d.browsers)) host (lookup n d.sessions)
unfolding handle_browser_disconnect
handle_browser_disconnect-lookup others host n cdp d u left =
    let rest = record d {
      browsers = remove host d.browsers;
      target_watchers = remove host d.target_watchers;
    } in
    let before = cancel_tokens (token_list (lookup host d.target_watchers)) rest in
    ground (
      arith,
      disconnect_each-lookup others host n (names_on host d.sessions) 0 before left,
      listed-names_on host n d.sessions u,
      marked-on_host host (lookup n d.sessions),
    )
