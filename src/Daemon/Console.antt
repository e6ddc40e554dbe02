-- ===== src/Daemon/Console.antt =====
-- src/daemon/console.rs: the last entries that a tab has written to its console. An entry's time is
-- a number that is only stored, so it is left abstract as a text.
pub mod Window
pub mod Routing
use browserkit.Common.{
  ℕ, suc, ◌+◌, ◌-◌, ◌≤◌, ◌≡◌, refl, List, [], ◌∷◌, ◌++◌, String, arith, leb, if◌then◌else◌, length,
  drop, length-append, length-drop,
}

abbrev pub console_log_max : ℕ
console_log_max = 200

pub record ConsoleEntry : Type 0 where
  pub level : String
  pub text : String
  pub timestamp : String

-- Oldest first, as in the `VecDeque`.
abbrev pub ConsoleLog : Type 0
ConsoleLog = List ConsoleEntry

pop_front : ConsoleLog → ConsoleLog
pop_front [] = []
pop_front (e ∷ log) = log

pub push_console_entry : ConsoleEntry → ConsoleLog → ConsoleLog
unfolding pop_front
push_console_entry entry log =
    (if leb console_log_max (length log) then pop_front log else log) ++ entry ∷ []

pub push_all : List ConsoleEntry → ConsoleLog → ConsoleLog
push_all [] log = log
push_all (e ∷ es) log = push_all es (push_console_entry e log)

-- The last `console_log_max` entries of a list.
abbrev pub last_entries : List ConsoleEntry → List ConsoleEntry
last_entries es = drop (length es - console_log_max) es
