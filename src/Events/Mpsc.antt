-- ===== src/Events/Mpsc.antt =====
-- What src/runtime/event.rs uses of the unbounded channels of Tokio (`tokio::sync::mpsc`).
use browserkit.Common.{ℕ, ◌≡◌, Bool, true, ◌&&◌, List, [], ◌∷◌, ◌++◌, eqb, if◌then◌else◌}

-- `W` is the state of all channels, and a channel is a number. The laws are the documented ones: a
-- sent item comes last in its own channel if the receiver is still there, and a new channel is
-- empty, has its receiver, and disturbs no other.
pub record Mpsc (W Item : Type 0) : Type 0 where
  pub unbounded_channel : W → W × ℕ
  pub send : ℕ → Item → W → W
  -- whether the receiver is there, which `send(..).is_ok()` tells
  pub accepts : ℕ → W → Bool
  -- what was put into a channel so far
  pub received : ℕ → W → List Item
  pub received-send :
      (c j : ℕ) (i : Item) (w : W)
      → received j (send c i w)
        ≡ (if eqb c j && accepts c w then received j w ++ i ∷ [] else received j w)
  pub accepts-send : (c j : ℕ) (i : Item) (w : W) → accepts j (send c i w) ≡ accepts j w
  pub received-new : (w : W) → received (unbounded_channel w).1 (unbounded_channel w).0 ≡ []
  pub accepts-new : (w : W) → accepts (unbounded_channel w).1 (unbounded_channel w).0 ≡ true
