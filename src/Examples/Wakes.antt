-- ===== src/Examples/Wakes.antt =====
-- Waiters of src/runtime/lifecycle.rs over a `Notify` that is a flag and a queue.
use browserkit.Common.{
  ℕ, zero, suc, ◌+◌, ◌<◌, ◌≡◌, refl, Bool, true, false, Option, none, some, List, [], ◌∷◌, ◌++◌,
  String, arith, if◌then◌else◌, string_eq,
}
use browserkit.Common.Assoc.{lookup}
use browserkit.Lifecycle.Notify.{Notify}
use browserkit.Lifecycle.Gate
use browserkit.Lifecycle.Gate.Wakeups
use browserkit.Lifecycle.Gate.Wakeups.{
  Draining, begin, Reach, here, next, enters, starts, looks, look, Reach-awaited,
}
use browserkit.Lifecycle.Pending.{Registry, cleaning, holds}
use browserkit.Lifecycle.Pending.Wakeups.{
  Waiters, looking, parked, answered, crossing, crossing-lost,
}

record Queue : Type 0 where
  pub stored : Bool
  pub queue : List ℕ

abbrev take : ℕ → Queue → Queue × Bool
take w n =
    if n.stored
    then (record n { stored = false }, true)
    else (record n { queue = n.queue ++ w ∷ [] }, false)

abbrev give_to : List ℕ → Queue → Queue × Option ℕ
give_to [] n = (record n { stored = true }, none)
give_to (w ∷ ws) n = (record n { queue = ws }, some w)

abbrev give : Queue → Queue × Option ℕ
give n = give_to n.queue n

take_stored :
    (w : ℕ) (n : Queue)
    → n.stored ≡ true
    → ((take w n).1 ≡ true) × ((take w n).0.stored ≡ false) × ((take w n).0.queue ≡ n.queue)
take_stored w n h = ground arith

take_waits :
    (w : ℕ) (n : Queue)
    → n.stored ≡ false
    → ((take w n).1 ≡ false)
      × ((take w n).0.stored ≡ false)
      × ((take w n).0.queue ≡ n.queue ++ w ∷ [])
take_waits w n h = ground arith

give_stores :
    (n : Queue)
    → n.queue ≡ []
    → ((give n).1 ≡ none) × ((give n).0.stored ≡ true) × ((give n).0.queue ≡ [])
give_stores n h = ground arith

give_wakes :
    (n : Queue) (w : ℕ) (ws : List ℕ)
    → n.queue ≡ w ∷ ws
    → ((give n).1 ≡ some w) × ((give n).0.stored ≡ n.stored) × ((give n).0.queue ≡ ws)
give_wakes n w ws h = ground arith

abbrev notify : Notify Queue
notify = record {
  notified = take;
  notify_one = give;
  permit = λ n. n.stored;
  waiting = λ n. n.queue;
  notified-stored = take_stored;
  notified-waits = take_waits;
  notify_one-stores = give_stores;
  notify_one-wakes = give_wakes;
}

abbrev idle : Queue
idle = record { stored = false; queue = [] }

abbrev wants : ℕ → String × ℕ
wants zero = ("page", 1)
wants (suc w) = ("context", 2)

abbrev cleanings : Registry String
cleanings = record {
  next_token = 3;
  entries =
      ("page", record { token = 1; state = cleaning; cleanup = none })
      ∷ ("context", record { token = 2; state = cleaning; cleanup = none })
      ∷ [];
  completed = [];
}

abbrev callers : Waiters String Queue
callers = record { registry = cleanings; changed = idle; position = λ w. looking }

crossing-lost_example :
    let y = crossing notify wants none callers in
    (y.position 0 ≡ parked)
    × (y.position 1 ≡ answered)
    × (holds "page" 1 y.registry ≡ false)
    × (y.changed.stored ≡ false)
    × (y.changed.queue ≡ 0 ∷ [])
crossing-lost_example =
    crossing-lost notify wants none callers (unfold holds lookup in refl)
      (unfold holds lookup in refl) refl refl refl

abbrev one_permit : Gate.OperationGate
one_permit = record { handle = Gate.opened; active = 1 }

abbrev closing_one : Draining Queue
closing_one = record {
  gate = record { handle = Gate.closing; active = 1 };
  drained = idle;
  position = Wakeups.looking;
  notifying = 0;
}

to_parked : Reach notify (begin idle) (look notify closing_one)
unfolding Gate.new Gate.enter Gate.start_close Gate.start_close_from
to_parked = next (next (next here (enters one_permit refl refl)) (starts refl)) (looks refl refl)

is_parked_now : (look notify closing_one).position ≡ Wakeups.parked
unfolding look Gate.is_drained
is_parked_now = refl

Reach-awaited_example :
    0 < (look notify closing_one).gate.active + (look notify closing_one).notifying
Reach-awaited_example = Reach-awaited notify idle refl to_parked is_parked_now
