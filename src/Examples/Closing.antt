-- ===== src/Examples/Closing.antt =====
-- Gates, versions, coordinators and reports of src/runtime at work.
use browserkit.Common.{◌≤◌, ◌≡◌, refl, true, false, none, List, [], ◌∷◌, arith, ◌≢◌}
use browserkit.Lifecycle.Gate
use browserkit.Lifecycle.Gate.Threads.{
  System, start, idle, draining, admit, begin, Reach, here, next, Inv, Reach-start-Inv,
}
use browserkit.Lifecycle.Gate.Drain.{Reach-refused, Call, enters, starts}
use browserkit.Lifecycle.Version.{LifecycleSnapshot, validate_page, validate_document}
use browserkit.Lifecycle.Version.Handles.{
  commit, replace, changes, page_verdict, document_verdict, changes-verdict,
}
use browserkit.Lifecycle.Coordinator
use browserkit.Lifecycle.Coordinator.{Attempt, joined, runs, winner, answers, runs-answers}
use browserkit.Lifecycle.Report.{CloseReport}

abbrev busy_gate : Gate.OperationGate
busy_gate = record { handle = Gate.opened; active = 1 }

abbrev busy : System
busy = record { gate = busy_gate; permits = 1; closer = idle }

abbrev waiting : System
waiting = record {
  gate = record { handle = Gate.closing; active = 1 };
  permits = 1;
  closer = draining;
}

to_waiting : Reach start waiting
unfolding Gate.new Gate.enter Gate.start_close Gate.start_close_from
to_waiting = next (next here (admit busy_gate refl refl)) (begin refl refl)

Reach-start-Inv_example : Inv waiting
Reach-start-Inv_example = Reach-start-Inv to_waiting

waiting-Inv : Inv waiting
waiting-Inv = Reach-start-Inv to_waiting

not_idle : waiting.closer ≢ idle
not_idle e = cc

Reach-refused_example :
    (Gate.enter waiting.gate ≡ none) × (Gate.is_current waiting.gate ≡ false) × (1 ≤ 1)
Reach-refused_example = Reach-refused waiting-Inv not_idle here

abbrev two_starts : List Call
two_starts = enters ∷ starts ∷ starts ∷ []

abbrev version : LifecycleSnapshot
version = record { page_generation = 3; document_epoch = 4 }

changes-verdict_example :
    (validate_page (changes version (commit ∷ replace ∷ [])) 3
      ≡ page_verdict (commit ∷ replace ∷ []))
    × (validate_document (changes version (commit ∷ replace ∷ [])) version
        ≡ document_verdict (commit ∷ replace ∷ []))
changes-verdict_example =
    changes-verdict version (commit ∷ replace ∷ []) (omega arith) (omega arith)

abbrev one_closed : CloseReport
one_closed = record { scope = "page"; closed_resources = "p1" ∷ []; failures = [] }

abbrev three_calls : List Attempt
three_calls =
    record { in_runtime = false; task = joined one_closed; dropped = false }
    ∷ record { in_runtime = true; task = joined one_closed; dropped = true }
    ∷ record { in_runtime = true; task = joined one_closed; dropped = false }
    ∷ []

runs-answers_example :
    ((runs Coordinator.new three_calls).0.report ≡ winner three_calls)
    × ((runs Coordinator.new three_calls).1 ≡ answers none three_calls)
runs-answers_example = runs-answers three_calls
