-- ===== src/Daemon/Dialog/Watcher.antt =====
-- What the watcher task of src/daemon/dialog.rs does with a dialog.
use browserkit.Common.{
  ℕ, ◌≡◌, Bool, true, false, not, ◌&&◌, ◌||◌, Option, none, some, String, arith, if◌then◌else◌,
  ◌==◌, string_eq, pair_eq, is_some, ◌≢◌,
}
use browserkit.Common.Assoc.{lookup, remove, lookup-insert, lookup-remove}
use browserkit.Daemon.Dialog.{
  DialogKey, DialogState, DialogPolicy, DialogCommand, DialogOpening, manual, accept, dismiss,
  get_policy, get_pending, cancel_subscription, cancel_all_for_session, opening_begin, opening_end,
  on_closed, pending_of,
}
use browserkit.Daemon.Dialog.Cancel.{cancel_all_for_session_lem}

-- An opening with nothing between its two parts; `sent` says whether the browser takes the command.
pub on_opening : ℕ → DialogKey → DialogOpening → Bool → DialogState → DialogState
on_opening now key ev sent s =
    let (t, command) = opening_begin now key ev s in
    elim command [ none ↦ t | some c ↦ opening_end now key ev sent t ]

abbrev is_manual : DialogPolicy → Bool
is_manual manual = true
is_manual _ = false

-- The command that a policy calls for.
abbrev pub expected_command : DialogPolicy → DialogOpening → Option DialogCommand
expected_command manual ev = none
expected_command accept ev = some (record { accepts = true; prompt_text = ev.default_prompt })
expected_command dismiss ev = some (record { accepts = false; prompt_text = none })

-- An opened dialog is recorded for its tab exactly if the session's policy is manual or the command
-- failed; an accepting command carries the default text of the prompt, a dismissing one no text, and
-- under the manual policy none is sent. The pending dialogs of other tabs are as before.
pub on_opening-get_pending :
    (now : ℕ) (key other : DialogKey) (ev : DialogOpening) (sent : Bool) (s : DialogState)
    → ((opening_begin now key ev s).1 ≡ expected_command (get_policy key.0 s) ev)
      × (get_pending other (on_opening now key ev sent s) ≡ (
          if (key == other) && (is_manual (get_policy key.0 s) || not sent)
          then some (pending_of now ev)
          else get_pending other s))
unfolding on_opening opening_begin opening_end get_pending
on_opening-get_pending now key other ev sent s =
    ground (arith, lookup-insert key other (pending_of now ev) s.pending)

-- A closed dialog is no longer pending, whoever closed it, and the others stay.
pub on_closed-get_pending :
    (key other : DialogKey) (s : DialogState)
    → get_pending other (on_closed key s) ≡ (if key == other then none else get_pending other s)
unfolding on_closed get_pending
on_closed-get_pending key other s = lookup-remove key other s.pending

late_failure :
    (now : ℕ) (name t : String) (ev : DialogOpening) (s : DialogState)
    → let cancelled = (cancel_subscription (name, t) s).0 in
      let late = opening_end now (name, t) ev false cancelled in
      (get_pending (name, t) cancelled ≡ none)
      × (get_pending (name, t) late ≡ some (pending_of now ev))
      × (lookup (name, t) late.subscription_tokens ≡ none)
unfolding opening_end cancel_subscription get_pending
late_failure now name t ev s = ground (
  arith,
  string_eq.beq_iff name name,
  string_eq.beq_iff t t,
  lookup-remove (name, t) (name, t) s.pending,
  lookup-remove (name, t) (name, t) s.subscription_tokens,
  lookup-insert (name, t) (name, t) (pending_of now ev) (remove (name, t) s.pending),
)

-- If a tab is cancelled while the watcher awaits the answer to its command, which it does unless the
-- policy is manual, and the command then fails, the dialog of the tab is recorded after the
-- cancellation has cleared it, and a later `cancel_all_for_session` of its session leaves it there.
pub cancelled-stale_pending :
    (now : ℕ) (key : DialogKey) (ev : DialogOpening) (s : DialogState)
    → get_policy key.0 s ≢ manual
    → let awaiting = (opening_begin now key ev s).0 in
      let cancelled = (cancel_subscription key awaiting).0 in
      let late = opening_end now key ev false cancelled in
      (is_some (opening_begin now key ev s).1 ≡ true)
      × (get_pending key cancelled ≡ none)
      × (get_pending key late ≡ some (pending_of now ev))
      × (get_pending key (cancel_all_for_session key.0 late).0 ≡ some (pending_of now ev))
cancelled-stale_pending now (name, t) ev s h =
    let awaiting = (opening_begin now (name, t) ev s).0 in
    let late = opening_end now (name, t) ev false (cancel_subscription (name, t) awaiting).0 in
    let (cleared, recorded, unsubscribed) = late_failure now name t ev awaiting in
    (
      unfold opening_begin in ground arith,
      cleared,
      recorded,
      ground (arith, (cancel_all_for_session_lem name name t late).1),
    )
