-- ===== src/Lifecycle/Pending/Wakeups.antt =====
-- The loop of `cleanup_one` of src/runtime/lifecycle.rs over the `Notify` that the registry has: who is
-- woken when a claimed cleanup ends. A waiter is a number, and `wants` its resource and token.
use browserkit.Common.{
  ℕ, ◌≡◌, refl, true, false, ◌&&◌, Option, none, some, List, [], ◌∷◌, ◌++◌, String, arith, eqb,
  if◌then◌else◌, ◌==◌, string_eq, beq_refl, ap, ◌∙◌,
}
use browserkit.Common.Assoc.{lookup-remove}
use browserkit.Lifecycle.Notify.{Notify}
use browserkit.Lifecycle.Pending.{Registry, Outcome, holds, finish}

-- A caller is about to test its entry, waits for a notification, or has its answer.
pub data Position : Type 0 where
  looking parked answered : Position

pub record Waiters (C N : Type 0) : Type 0 where
  pub registry : Registry C
  pub changed : N
  pub position : ℕ → Position

abbrev pub put : ℕ → Position → (ℕ → Position) → ℕ → Position
put w p position = λ v. if eqb w v then p else position v

abbrev pub wake : Option ℕ → (ℕ → Position) → ℕ → Position
wake none position = position
wake (some w) position = put w looking position

holds-finish :
    {C : Type 0} (k j : String) (t s : ℕ) (result : Outcome) (r : Registry C)
    → holds k t (finish j s result r) ≡ (if (j == k) && holds j s r then false else holds k t r)
unfolding holds finish
holds-finish k j t s result r = ground (arith, lookup-remove j k r.entries, string_eq.beq_iff j k)

module _ {C N : Type 0} (m : Notify N) (wants : ℕ → String × ℕ) where
  -- One round of the loop.
  pub look : ℕ → Waiters C N → Waiters C N
  look w x =
      if holds (wants w).0 (wants w).1 x.registry
      then record x {
        changed = (m.notified w x.changed).0;
        position = put w (if (m.notified w x.changed).1 then looking else parked) x.position;
      }
      else record x { position = put w answered x.position }

  -- The end of the cleanup that a waiter waits for: `finish` with its `notify_one`.
  pub ends : ℕ → Outcome → Waiters C N → Waiters C N
  ends w result x = record x {
    registry = finish (wants w).0 (wants w).1 result x.registry;
    changed = (m.notify_one x.changed).0;
    position = wake (m.notify_one x.changed).1 x.position;
  }

  look-parks :
      (w : ℕ) (x : Waiters C N)
      → holds (wants w).0 (wants w).1 x.registry ≡ true
      → m.permit x.changed ≡ false
      → ((look w x).registry ≡ x.registry)
        × (m.permit (look w x).changed ≡ false)
        × (m.waiting (look w x).changed ≡ m.waiting x.changed ++ w ∷ [])
        × ((look w x).position ≡ put w parked x.position)
  unfolding look
  look-parks w x h p = ground (arith, m.notified-waits w x.changed)

  look-answers :
      (w : ℕ) (x : Waiters C N)
      → holds (wants w).0 (wants w).1 x.registry ≡ false
      → look w x ≡ record x { position = put w answered x.position }
  unfolding look
  look-answers w x h = ground arith

  ends-wakes :
      (w v : ℕ) (ws : List ℕ) (result : Outcome) (x : Waiters C N)
      → m.waiting x.changed ≡ v ∷ ws
      → ((ends w result x).registry ≡ finish (wants w).0 (wants w).1 result x.registry)
        × (m.permit (ends w result x).changed ≡ m.permit x.changed)
        × (m.waiting (ends w result x).changed ≡ ws)
        × ((ends w result x).position ≡ put v looking x.position)
  unfolding ends
  ends-wakes w v ws result x e = ground (arith, m.notify_one-wakes x.changed v ws)

  -- Two callers wait in turn; then the second one's cleanup ends, the first looks again, the first
  -- one's cleanup ends, and the second looks again.
  pub crossing : Outcome → Waiters C N → Waiters C N
  crossing result x = look 1 (ends 0 result (look 0 (ends 1 result (look 1 (look 0 x)))))

  -- If no permit is stored and nobody waits, and two callers then wait in turn for the cleanups of two
  -- different resources, both of which run, and the second one's ends first, and then the first
  -- one's, the second caller gets its answer, but the first one waits on with no permit stored,
  -- although its entry is gone too: its own notification was spent on the second caller.
  pub crossing-lost :
      (result : Outcome) (x : Waiters C N)
      → holds (wants 0).0 (wants 0).1 x.registry ≡ true
      → holds (wants 1).0 (wants 1).1 x.registry ≡ true
      → ((wants 1).0 == (wants 0).0) ≡ false
      → m.permit x.changed ≡ false
      → m.waiting x.changed ≡ []
      → let y = crossing result x in
        (y.position 0 ≡ parked)
        × (y.position 1 ≡ answered)
        × (holds (wants 0).0 (wants 0).1 y.registry ≡ false)
        × (m.permit y.changed ≡ false)
        × (m.waiting y.changed ≡ 0 ∷ [])
  unfolding crossing
  crossing-lost result x h k d p e =
      let x1 = look 0 x in
      let x2 = look 1 x1 in
      let x3 = ends 1 result x2 in
      let x4 = look 0 x3 in
      let x5 = ends 0 result x4 in
      let (r1, p1, w1, q1) = look-parks 0 x h p in
      let (r2, p2, w2, q2) = look-parks 1 x1 (ground arith) p1 in
      let (r3, p3, w3, q3) = ends-wakes 1 0 (1 ∷ []) result x2 (ground arith) in
      let held : holds (wants 0).0 (wants 0).1 x3.registry ≡ true =
        ground (
          arith,
          holds-finish (wants 0).0 (wants 1).0 (wants 0).1 (wants 1).1 result x2.registry,
        ) in
      let (r4, p4, w4, q4) = look-parks 0 x3 held (ground arith) in
      let (r5, p5, w5, q5) = ends-wakes 0 1 (0 ∷ []) result x4 (ground arith) in
      let ended : (v : ℕ)
          → holds (wants v).0 (wants v).1 x3.registry ≡ false
          → holds (wants v).0 (wants v).1 x5.registry ≡ false =
        λ v f. ground (
          arith,
          holds-finish (wants v).0 (wants 0).0 (wants v).1 (wants 0).1 result x4.registry,
        ) in
      let gone : holds (wants 1).0 (wants 1).1 x5.registry ≡ false = ended 1 (
        ground (
          arith,
          holds-finish (wants 1).0 (wants 1).0 (wants 1).1 (wants 1).1 result x2.registry,
          beq_refl (wants 1).0,
        )) in
      rw (look-answers 1 x5 gone) (
        ap (λ (f : ℕ → Position). f 0) q5 ∙ ap (λ (f : ℕ → Position). f 0) q4,
        refl,
        ground (
          arith,
          holds-finish (wants 0).0 (wants 0).0 (wants 0).1 (wants 0).1 result x4.registry,
          beq_refl (wants 0).0,
        ),
        ground arith,
        w5,
      )
