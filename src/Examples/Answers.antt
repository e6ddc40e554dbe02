-- ===== src/Examples/Answers.antt =====
-- Requests, responses, dialogs and downloads that are answered, in src/daemon/handler and
-- src/runtime.
use browserkit.Common.{
  ℕ, ◌≤◌, ◌≡◌, refl, true, false, not, none, some, [], ◌∷◌, String, inr, length, arith, string_eq,
  ltb, ◌||◌, eqb,
}
use browserkit.Common.Assoc.{lookup, insert}
use browserkit.Daemon.Selection.{
  text, missing, IsSelected, resolve_session_target, resolve_session_target-IsSelected,
}
use browserkit.Daemon.NetworkWatch.{
  Watch, completed, buffered, record_response, record_terminal, insert_event, overflowed,
  record-either_order, insert_event-room,
}
use browserkit.Runtime.TargetClose.{
  destroyed, answered, missing_target, IsGone, close_created_target-IsGone,
  close_created_target_and_wait, confirm_target_absent, drain_queued,
}
use browserkit.Runtime.DownloadStatus.{
  DownloadStatus, finish, look, run as run_downloads, finishes, closes as closes_downloads,
  finish-settles,
}
use browserkit.Runtime.Dialogs.{new, opens, closes, claim, claim_first, run, claim-once, open_epoch}
use browserkit.Examples.Fixtures.{work, demo, demo-Inv}

demo-work : lookup "work" demo.sessions ≡ some work
unfolding lookup
demo-work = refl

resolve_session_target-IsSelected_example :
    IsSelected demo "work" work (resolve_session_target demo (text "work") missing)
resolve_session_target-IsSelected_example =
    resolve_session_target-IsSelected demo "work" work demo-Inv demo-work

-- Responses are their request's id, and an end is a length.
abbrev watch : Watch String ℕ
watch = record { pending = []; terminals = record { events = []; capacity = 8; dropped = 0 } }

abbrev first_request : String
first_request = "r1"

abbrev id_of : String → String
id_of r = r

abbrev both : String → ℕ → String × ℕ
both r n = (r, n)

absent : {V : Type 0} → lookup {V = V} first_request [] ≡ none
unfolding lookup
absent = refl

record-either_order_example :
    let (known, nothing) = record_response id_of both first_request watch in
    let (ended, first) = record_terminal id_of both first_request 120 watch in
    (nothing ≡ none)
    × (first ≡ buffered)
    × ((record_terminal id_of both first_request 120 known).1 ≡ completed (first_request, 120))
    × ((record_response id_of both first_request ended).1 ≡ some (first_request, 120))
record-either_order_example =
    record-either_order id_of both first_request 120 watch absent absent (omega arith)

insert_event-room_example :
    let (after, room) = insert_event "r1" 120 watch.terminals in
    (length after.events ≤ after.capacity)
    × (room ≡ ltb (length after.events) after.capacity)
    × (overflowed after ≡ (not room || not (eqb watch.terminals.dropped 0)))
insert_event-room_example = insert_event-room "r1" 120 watch.terminals (omega arith) (omega arith)

closed-early :
    close_created_target_and_wait "t1" none
      (answered missing_target)
      (destroyed "t1" ∷ [])
      (confirm_target_absent "t1" (inr ("t1" ∷ [])))
    ≡ none
unfolding close_created_target_and_wait drain_queued
closed-early = refl

close_created_target-IsGone_example :
    IsGone "t1" (answered missing_target) (destroyed "t1" ∷ []) (inr ("t1" ∷ []))
close_created_target-IsGone_example =
    close_created_target-IsGone "t1" none (answered missing_target) (destroyed "t1" ∷ [])
      (inr ("t1" ∷ [])) closed-early

abbrev downloading : DownloadStatus String
downloading = record { terminal = none; closed = none }

finish-accepted : (finish "completed" downloading).1 ≡ some "completed"
unfolding finish
finish-accepted = refl

finish-settles_example :
    look (
      run_downloads
        (finishes "canceled" ∷ closes_downloads "session closed" ∷ [])
        (finish "completed" downloading).0)
    ≡ some (inr "completed")
finish-settles_example =
    finish-settles "completed" "completed" downloading
      (finishes "canceled" ∷ closes_downloads "session closed" ∷ []) finish-accepted

claim-taken : (claim 2 (run (opens "page" ∷ opens "ad" ∷ []) new)).1 ≡ true
unfolding claim claim_first run new open_epoch insert
claim-taken = refl

claim-once_example :
    (claim 2 (
      run
        (closes "page" ∷ opens "page" ∷ [])
        (claim 2 (run (opens "page" ∷ opens "ad" ∷ []) new)).0)).1
    ≡ false
claim-once_example =
    claim-once (opens "page" ∷ opens "ad" ∷ []) (closes "page" ∷ opens "page" ∷ []) 2 (omega arith)
      claim-taken
