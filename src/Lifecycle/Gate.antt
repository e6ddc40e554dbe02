-- ===== src/Lifecycle/Gate.antt =====
-- `OperationGate` of src/runtime/lifecycle.rs. Each method holds the mutex for its whole body, so
-- it is one function of the state. `active` counts permits, each of which holds an `Arc`, whose
-- own count aborts the program before a `usize` is used up; so `active` is left unbounded.
pub mod Threads
pub mod Drain
pub mod Wakeups
use browserkit.Common.{ℕ, ◌+◌, ◌-◌, ◌≡◌, Bool, true, false, Option, none, some, eqb, if◌then◌else◌}

pub data HandleState : Type 0 where
  opened closing closed : HandleState

abbrev pub is_opened : HandleState → Bool
is_opened opened = true
is_opened _ = false

pub record OperationGate : Type 0 where
  pub handle : HandleState
  pub active : ℕ

unfoldable pub new : OperationGate
new = record { handle = opened; active = 0 }

-- `none` is the error of the phase `Preparation`: no permit is given.
unfoldable pub enter : OperationGate → Option OperationGate
enter g = if is_opened g.handle then some (record g { active = g.active + 1 }) else none

-- The Boolean says whether this call made the transition.
unfoldable pub start_close_from : HandleState → OperationGate → OperationGate × Bool
start_close_from opened g = (record g { handle = closing }, true)
start_close_from _ g = (g, false)

unfoldable pub start_close : OperationGate → OperationGate × Bool
unfolding start_close_from
start_close g = start_close_from g.handle g

-- The test that the loop of `wait_for_drain` makes in each round, and returns on.
unfoldable pub is_drained : OperationGate → Bool
is_drained g = eqb g.active 0

pub finish_close : OperationGate → OperationGate
finish_close g = record g { handle = closed }

-- `Drop for OperationPermit`; `saturating_sub` is the truncated subtraction.
pub drop_permit : OperationGate → OperationGate
drop_permit g = record g { active = g.active - 1 }

-- `OperationPermit::is_current`.
pub is_current : OperationGate → Bool
is_current g = is_opened g.handle
