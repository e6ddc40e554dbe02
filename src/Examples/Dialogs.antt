-- ===== src/Examples/Dialogs.antt =====
-- The dialogs of one tab, src/daemon/dialog.rs.
use browserkit.Common.{◌≡◌, ◌≢◌, true, false, none, some, string_eq, pair_eq, is_some}
use browserkit.Common.Assoc.{lookup}
use browserkit.Daemon.Dialog.{
  manual, get_policy, get_pending, cancel_subscription, cancel_all_for_session, opening_begin,
  opening_end, pending_of,
}
use browserkit.Daemon.Dialog.Watcher.{cancelled-stale_pending}
use browserkit.Examples.Fixtures.{dialogs, opening}

not_manual : get_policy "work" dialogs ≢ manual
unfolding get_policy lookup
not_manual e = cc

cancelled-stale_pending_example :
    let awaiting = (opening_begin 9 ("work", "t1") opening dialogs).0 in
    let cancelled = (cancel_subscription ("work", "t1") awaiting).0 in
    let late = opening_end 9 ("work", "t1") opening false cancelled in
    (is_some (opening_begin 9 ("work", "t1") opening dialogs).1 ≡ true)
    × (get_pending ("work", "t1") cancelled ≡ none)
    × (get_pending ("work", "t1") late ≡ some (pending_of 9 opening))
    × (get_pending ("work", "t1") (cancel_all_for_session "work" late).0
        ≡ some (pending_of 9 opening))
cancelled-stale_pending_example =
    cancelled-stale_pending 9 ("work", "t1") opening dialogs not_manual
