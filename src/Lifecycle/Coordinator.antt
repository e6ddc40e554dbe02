-- ===== src/Lifecycle/Coordinator.antt =====
-- `CloseCoordinator` of src/runtime/lifecycle.rs: a close is spawned as a task of its own once, and
-- every caller awaits the same report.
use browserkit.Common.{
  ◌≡◌, refl, Bool, true, false, not, ◌&&◌, ◌||◌, Option, none, some, List, [], ◌∷◌, String, arith,
  if◌then◌else◌, is_some,
}
use browserkit.Lifecycle.Report.{CloseReport}
use browserkit.Lifecycle.Report

-- How a spawned task ends: with its value, or with the message of the join error.
pub data TaskEnd : Type 0 where
  joined : CloseReport → TaskEnd
  join_error : String → TaskEnd

-- One call of `run`: whether a Tokio runtime is at hand, how the task would end that it offers,
-- and whether the caller is dropped while it awaits.
pub record Attempt : Type 0 where
  pub in_runtime : Bool
  pub task : TaskEnd
  pub dropped : Bool

-- The report that the shared future of a started close resolves to, and whether it has done so.
pub record Coordinator : Type 0 where
  pub report : Option CloseReport
  pub resolved : Bool

pub new : Coordinator
new = record { report = none; resolved = false }

pub report_of : TaskEnd → CloseReport
report_of (joined report) = report
report_of (join_error message) = Report.failed "close task" message (Report.new "close task")

abbrev no_runtime : CloseReport
no_runtime = Report.failed "close task" "no active Tokio runtime" (Report.new "close task")

-- A caller awaits the report, unless it is dropped first.
await : Coordinator → Bool → CloseReport → Coordinator × Option CloseReport
await c true report = (c, none)
await c false report = (record c { resolved = true }, some report)

pub run : Coordinator → Attempt → Coordinator × Option CloseReport
unfolding await report_of
run c a = elim c.report [
  | some report ↦ await c a.dropped report
  | none ↦
      if a.in_runtime
      then await (record c { report = some (report_of a.task) }) a.dropped (report_of a.task)
      else (c, some no_runtime)
]

pub is_finished : Coordinator → Bool
is_finished c = is_some c.report && c.resolved

pub runs : Coordinator → List Attempt → Coordinator × List (Option CloseReport)
runs c [] = (c, [])
runs c (a ∷ as') = let (d, r) = run c a in let (e, rs) = runs d as' in (e, r ∷ rs)

-- The first call in a runtime decides.
abbrev pub winner : List Attempt → Option CloseReport
winner [] = none
winner (a ∷ rest) = if a.in_runtime then some (report_of a.task) else winner rest

-- What each call gets: before the winner a report of failure, from then on the winner's report,
-- unless the caller is dropped.
abbrev pub answers : Option CloseReport → List Attempt → List (Option CloseReport)
answers report [] = []
answers (some report) (a ∷ rest) =
    (if a.dropped then none else some report) ∷ answers (some report) rest
answers none (a ∷ rest) =
    if a.in_runtime
    then (if a.dropped then none else some (report_of a.task))
      ∷ answers (some (report_of a.task)) rest
    else some no_runtime ∷ answers none rest

runs_started :
    (c : Coordinator) (report : CloseReport) (as' : List Attempt)
    → c.report ≡ some report
    → ((runs c as').0.report ≡ some report) × ((runs c as').1 ≡ answers (some report) as')
unfolding runs run
runs_started c report [] h = (h, refl)
runs_started c report (a ∷ as') h = ground (arith, runs_started (run c a).0 report as')

pub runs-answers :
    (as' : List Attempt)
    → ((runs new as').0.report ≡ winner as') × ((runs new as').1 ≡ answers none as')
unfolding runs run new
runs-answers [] = (refl, refl)
runs-answers (a ∷ as') =
    ground (arith, runs-answers as', runs_started (run new a).0 (report_of a.task) as')

-- A close is finished once some caller has awaited its report to the end.
pub is_finished-run :
    (c : Coordinator) (a : Attempt)
    → c.resolved ≡ is_finished c
    → is_finished (run c a).0
      ≡ (is_finished c || (not a.dropped && (is_some c.report || a.in_runtime)))
unfolding run is_finished
is_finished-run c a h = ground arith
