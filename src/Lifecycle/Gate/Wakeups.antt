-- ===== src/Lifecycle/Gate/Wakeups.antt =====
-- The loop of `wait_for_drain` of src/runtime/lifecycle.rs over the `Notify` of the gate, in one close
-- task. The drop of a permit releases the lock before it notifies, so these are two steps.
use browserkit.Common.{
  ℕ, suc, ◌+◌, ◌<◌, ◌≡◌, Bool, true, false, Option, none, some, [], ◌∷◌, arith, if◌then◌else◌,
  Bool-cases, inl, inr,
}
use browserkit.Lifecycle.Notify.{Notify}
use browserkit.Lifecycle.Gate.{OperationGate, new, enter, start_close, is_drained, drop_permit}

-- The close task is about to test the gate, waits for a notification, or has returned.
pub data Position : Type 0 where
  looking parked returned : Position

abbrev pub is_parked : Position → Bool
is_parked parked = true
is_parked _ = false

-- `notifying` counts the drops that have released the lock at no permit and have not notified yet.
pub record Draining (N : Type 0) : Type 0 where
  pub gate : OperationGate
  pub drained : N
  pub position : Position
  pub notifying : ℕ

abbrev after_wake : Option ℕ → Position → Position
after_wake none p = p
after_wake (some w) p = looking

abbrev pub begin : {N : Type 0} → N → Draining N
begin n = record { gate = new; drained = n; position = looking; notifying = 0 }

module _ {N : Type 0} (m : Notify N) where
  -- One round of the loop, of the only waiter.
  unfoldable pub look : Draining N → Draining N
  look s = if is_drained s.gate then record s { position = returned } else record s {
    drained = (m.notified 0 s.drained).0;
    position = if (m.notified 0 s.drained).1 then looking else parked;
  }

  pub data Step (s : Draining N) (t : Draining N) : Type 0 where
    enters : (g : OperationGate) → enter s.gate ≡ some g → t ≡ record s { gate = g } → Step s t
    starts : t ≡ record s { gate = (start_close s.gate).0 } → Step s t
    drops :
        (n : ℕ)
        → s.gate.active ≡ suc n
        → t ≡ record s {
          gate = drop_permit s.gate;
          notifying = if is_drained (drop_permit s.gate) then s.notifying + 1 else s.notifying;
        }
        → Step s t
    notifies :
        (n : ℕ)
        → s.notifying ≡ suc n
        → t ≡ record s {
          drained = (m.notify_one s.drained).0;
          position = after_wake (m.notify_one s.drained).1 s.position;
          notifying = n;
        }
        → Step s t
    looks : s.position ≡ looking → t ≡ look s → Step s t

  pub data Reach (s : Draining N) : Draining N → Type 0 where
    here : Reach s s
    next : {t u : Draining N} → Reach s t → Step t u → Reach s u

  -- The task waits exactly while it is parked, and it is parked only while a notification is to come.
  pub record Inv (s : Draining N) : Type 0 where
    pub queue : m.waiting s.drained ≡ (if is_parked s.position then 0 ∷ [] else [])
    pub awaited : is_parked s.position ≡ true → 0 < s.gate.active + s.notifying

  look-Inv : (s : Draining N) → Inv s → s.position ≡ looking → Inv (look s)
  unfolding look is_drained
  look-Inv s v e = elim (Bool-cases (m.permit s.drained)) [
    | inl p ↦ record {
      queue = ground (arith, v.queue, m.notified-stored 0 s.drained);
      awaited = λ q. ground (arith, m.notified-stored 0 s.drained);
    }
    | inr p ↦ record {
      queue = ground (arith, v.queue, m.notified-waits 0 s.drained);
      awaited = λ q. ground (arith, m.notified-waits 0 s.drained);
    }
  ]

  notify-Inv :
      (s : Draining N) (n : ℕ)
      → Inv s
      → s.notifying ≡ suc n
      → Inv (record s {
        drained = (m.notify_one s.drained).0;
        position = after_wake (m.notify_one s.drained).1 s.position;
        notifying = n;
      })
  notify-Inv s n v e = elim (Bool-cases (is_parked s.position)) [
    | inl p ↦ record {
      queue = ground (arith, v.queue, m.notify_one-wakes s.drained 0 []);
      awaited = λ q. ground (arith, v.queue, m.notify_one-wakes s.drained 0 []);
    }
    | inr p ↦ record {
      queue = ground (arith, v.queue, m.notify_one-stores s.drained);
      awaited = λ q. ground (arith, v.queue, m.notify_one-stores s.drained);
    }
  ]

  Step-Inv : {s t : Draining N} → Step s t → Inv s → Inv t
  unfolding enter start_close is_drained drop_permit
  Step-Inv (enters g e q) v =
      rw q (record { queue = v.queue; awaited = λ p. ground (arith, v.awaited) })
  Step-Inv (starts q) v =
      rw q (record { queue = v.queue; awaited = λ p. ground (arith, v.awaited) })
  Step-Inv (drops n e q) v = rw q (record { queue = v.queue; awaited = λ p. ground arith })
  Step-Inv {s} (notifies n e q) v = rw q (notify-Inv s n v e)
  Step-Inv {s} (looks e q) v = rw q (look-Inv s v e)

  Reach-Inv : {s t : Draining N} → Reach s t → Inv s → Inv t
  Reach-Inv here v = v
  Reach-Inv (next r p) v = Step-Inv p (Reach-Inv r v)

  pub Reach-awaited :
      (n : N) {t : Draining N}
      → m.waiting n ≡ []
      → Reach (begin n) t
      → t.position ≡ parked
      → 0 < t.gate.active + t.notifying
  Reach-awaited n e r p =
      let v = Reach-Inv r (record { queue = e; awaited = λ q. cc }) in v.awaited (ground arith)
