-- ===== src/Lifecycle/Gate/Drain.antt =====
-- What a started close of src/runtime/lifecycle.rs brings about: no operation is admitted again,
-- the permits run out, and one caller alone is told that it started the close.
use browserkit.Common.{
  ℕ, zero, suc, ◌+◌, ◌≤◌, ◌≡◌, refl, ◌≢◌, true, false, List, [], ◌∷◌, none, some, arith,
  if◌then◌else◌,
}
use browserkit.Lifecycle.Gate.{
  OperationGate, enter, start_close, is_drained, finish_close, drop_permit, is_current,
}
use browserkit.Lifecycle.Gate.Threads.{
  System, idle, draining, finished, Step, admit, refuse, release, begin, drained, finish, Reach,
  here, next, Inv, Step-Inv, Reach-Inv,
}

Step-permits :
    {s t : System}
    → Inv s
    → s.closer ≢ idle
    → Step s t
    → (t.closer ≢ idle) × (t.permits ≤ s.permits)
unfolding enter
Step-permits v c (admit g e q) = ground arith
Step-permits v c (refuse e q) = ground arith
Step-permits v c (release n e q) = ground arith
Step-permits v c (begin e q) = ground arith
Step-permits v c (drained e d q) = ground arith
Step-permits v c (finish e q) = ground arith

Reach-permits :
    {s t : System}
    → Inv s
    → s.closer ≢ idle
    → Reach s t
    → (t.closer ≢ idle) × (t.permits ≤ s.permits)
Reach-permits v c here = (c, omega arith)
Reach-permits {s} v c (next {t = m} r p) =
    let (c', le) = Reach-permits v c r in
    let (c'', le') = Step-permits (Reach-Inv v r) c' p in (c'', omega arith)

closed_gate :
    {t : System} → Inv t → t.closer ≢ idle → (enter t.gate ≡ none) × (is_current t.gate ≡ false)
unfolding enter is_current
closed_gate v c = ground arith

-- Once the close task has started on a gate whose invariant holds, in every state that follows a new operation is refused, an
-- earlier permit reads as no longer current, and there are no more permits than when it started.
pub Reach-refused :
    {s t : System}
    → Inv s
    → s.closer ≢ idle
    → Reach s t
    → (enter t.gate ≡ none) × (is_current t.gate ≡ false) × (t.permits ≤ s.permits)
Reach-refused v c r =
    let (c', le) = Reach-permits v c r in let (e, n) = closed_gate (Reach-Inv v r) c' in (e, n, le)

Reach-trans : {s t u : System} → Reach s t → Reach t u → Reach s u
Reach-trans r here = r
Reach-trans r (next q p) = next (Reach-trans r q) p

release_all :
    (n : ℕ) (s : System)
    → s.permits ≡ n
    → Inv s
    → s.closer ≡ draining
    → (t : System) × Reach s t × (t.permits ≡ 0) × (t.closer ≡ draining) × Inv t
release_all zero s e v c = (s, here, e, c, v)
release_all (suc n) s e v c =
    let step : Step s (record s { gate = drop_permit s.gate; permits = n }) = release n e refl in
    let (t, r, z, d, w) = release_all n _ refl (Step-Inv step v) c in
    (t, Reach-trans (next here step) r, z, d, w)

-- A close that waits for its permits on a gate whose invariant holds can go on: when the holders drop them, the test of
-- `wait_for_drain` passes and the gate ends closed with no operation active.
pub draining-finishes :
    (s : System)
    → Inv s
    → s.closer ≡ draining
    → (t : System) × Reach s t × (t.closer ≡ finished) × (is_drained t.gate ≡ true)
unfolding is_drained finish_close
draining-finishes s v c =
    let (t, r, z, d, w) = release_all s.permits s refl v c in
    (
      record t { gate = finish_close t.gate; closer = finished },
      next (next r (drained d (ground arith) refl)) (finish refl refl),
      refl,
      ground arith,
    )

-- Calls on the gate alone, in any order and by any number of callers.
pub data Call : Type 0 where
  enters drops starts finishes : Call

-- A lost `enter` leaves the gate as it was.
entered : OperationGate → OperationGate
entered g = elim (enter g) [ none ↦ g | some h ↦ h ]

-- The gate after one call, and how many callers were told `true` by `start_close`.
pub call : OperationGate → Call → OperationGate × ℕ
unfolding entered
call g enters = (entered g, 0)
call g drops = (drop_permit g, 0)
call g starts = let (h, won) = start_close g in (h, if won then 1 else 0)
call g finishes = (finish_close g, 0)

pub calls : OperationGate → List Call → OperationGate × ℕ
calls g [] = (g, 0)
calls g (c ∷ cs) = let (h, n) = call g c in let (k, m) = calls h cs in (k, n + m)

abbrev room : OperationGate → ℕ
room g = if is_current g then 1 else 0

call-room : (g : OperationGate) (c : Call) → (call g c).1 + room (call g c).0 ≤ room g
unfolding call enter start_close finish_close drop_permit is_current
call-room g enters = ground arith
call-room g drops = ground arith
call-room g starts = ground arith
call-room g finishes = ground arith

calls-room : (g : OperationGate) (cs : List Call) → (calls g cs).1 + room (calls g cs).0 ≤ room g
unfolding calls
calls-room g [] = omega arith
calls-room g (c ∷ cs) = omega (arith, call-room g c, calls-room (call g c).0 cs)

room-le : (g : OperationGate) → room g ≤ 1
room-le g = ground arith

-- Of all calls of `start_close`, in any sequence of calls on a gate, at most one is told that it
-- made the transition, and none while the gate is still open.
pub calls-one_winner :
    (g : OperationGate) (cs : List Call)
    → (calls g cs).1 + (if is_current (calls g cs).0 then 1 else 0) ≤ 1
calls-one_winner g cs = omega (arith, calls-room g cs, room-le g)
