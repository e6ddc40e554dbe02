-- ===== src/Lifecycle/Notify.antt =====
-- What src/runtime/lifecycle.rs uses of `tokio::sync::Notify`.
use browserkit.Common.{ℕ, ◌≡◌, Bool, true, false, Option, none, some, List, [], ◌∷◌, ◌++◌}

-- `N` is the state of a `Notify`, and a waiter is a number. The laws are the documented ones: an await
-- of `notified()` takes a stored permit and goes on, or waits behind those that wait already;
-- `notify_one` wakes the one that has waited longest, and stores a permit if none waits.
pub record Notify (N : Type 0) : Type 0 where
  -- whether the waiter goes on at once
  pub notified : ℕ → N → N × Bool
  -- the waiter that is woken
  pub notify_one : N → N × Option ℕ
  pub permit : N → Bool
  pub waiting : N → List ℕ
  pub notified-stored :
      (w : ℕ) (n : N)
      → permit n ≡ true
      → ((notified w n).1 ≡ true)
        × (permit (notified w n).0 ≡ false)
        × (waiting (notified w n).0 ≡ waiting n)
  pub notified-waits :
      (w : ℕ) (n : N)
      → permit n ≡ false
      → ((notified w n).1 ≡ false)
        × (permit (notified w n).0 ≡ false)
        × (waiting (notified w n).0 ≡ waiting n ++ w ∷ [])
  pub notify_one-stores :
      (n : N)
      → waiting n ≡ []
      → ((notify_one n).1 ≡ none)
        × (permit (notify_one n).0 ≡ true)
        × (waiting (notify_one n).0 ≡ [])
  pub notify_one-wakes :
      (n : N) (w : ℕ) (ws : List ℕ)
      → waiting n ≡ w ∷ ws
      → ((notify_one n).1 ≡ some w)
        × (permit (notify_one n).0 ≡ permit n)
        × (waiting (notify_one n).0 ≡ ws)
