-- ===== src/Lifecycle/Gate/Threads.antt =====
-- The gate of src/runtime/lifecycle.rs under every interleaving of operations that come and go and
-- of one close task, which calls `start_close`, `wait_for_drain`, its cleanup and `finish_close` in
-- this order, as `close` of a page, a session and a runtime does.
use browserkit.Common.{ℕ, suc, ◌+◌, ◌≡◌, refl, true, none, some, arith}
use browserkit.Lifecycle.Gate.{
  HandleState, opened, closing, closed, OperationGate, new, enter, start_close, is_drained,
  finish_close, drop_permit,
}

-- Where the close task stands.
pub data Closer : Type 0 where
  idle draining cleaning finished : Closer

pub record System : Type 0 where
  pub gate : OperationGate
  pub permits : ℕ
  pub closer : Closer

abbrev pub start : System
start = record { gate = new; permits = 0; closer = idle }

-- One step of one of the threads. A guard is an equation about the call that the thread makes.
pub data Step (s : System) (t : System) : Type 0 where
  admit :
      (g : OperationGate)
      → enter s.gate ≡ some g
      → t ≡ record s { gate = g; permits = s.permits + 1 }
      → Step s t
  refuse : enter s.gate ≡ none → t ≡ s → Step s t
  release :
      (n : ℕ)
      → s.permits ≡ suc n
      → t ≡ record s { gate = drop_permit s.gate; permits = n }
      → Step s t
  begin :
      s.closer ≡ idle → t ≡ record s { gate = (start_close s.gate).0; closer = draining } → Step s t
  drained :
      s.closer ≡ draining → is_drained s.gate ≡ true → t ≡ record s { closer = cleaning } → Step s t
  finish :
      s.closer ≡ cleaning
      → t ≡ record s { gate = finish_close s.gate; closer = finished }
      → Step s t

pub data Reach (s : System) : System → Type 0 where
  here : Reach s s
  next : {t u : System} → Reach s t → Step t u → Reach s u

-- The gate's handle is the one that the close task's position calls for.
abbrev pub expected_handle : Closer → HandleState
expected_handle idle = opened
expected_handle draining = closing
expected_handle cleaning = closing
expected_handle finished = closed

abbrev pub IsQuiet : Closer → ℕ → Type 0
IsQuiet cleaning n = n ≡ 0
IsQuiet finished n = n ≡ 0
IsQuiet _ n = Unit

pub record Inv (s : System) : Type 0 where
  pub counted : s.gate.active ≡ s.permits
  pub phase : s.gate.handle ≡ expected_handle s.closer
  pub quiet : IsQuiet s.closer s.permits

pub start-Inv : Inv start
unfolding new
start-Inv = record { counted = refl; phase = refl; quiet = tt }

pub Step-Inv : {s t : System} → Step s t → Inv s → Inv t
unfolding enter start_close is_drained finish_close drop_permit
Step-Inv (admit g e q) v = ground arith
Step-Inv (refuse e q) v = ground arith
Step-Inv (release n e q) v = ground arith
Step-Inv (begin e q) v = ground arith
Step-Inv (drained e d q) v = ground arith
Step-Inv (finish e q) v = ground arith

pub Reach-Inv : {s t : System} → Inv s → Reach s t → Inv t
Reach-Inv v here = v
Reach-Inv v (next r p) = Step-Inv p (Reach-Inv v r)

-- In every reachable state the gate counts exactly the permits that are held, its handle is the
-- one of the close task's position, and while the cleanup runs and ever after no permit is held.
pub Reach-start-Inv : {t : System} → Reach start t → Inv t
Reach-start-Inv r = Reach-Inv start-Inv r
