-- ===== src/Runtime/Dialogs.antt =====
-- `DialogCoordinator` of src/runtime/dialog.rs: the dialogs that are open, each under the session of
-- its frame, and who may handle them. The broadcast of the opened dialogs is not modelled.
use browserkit.Common.{
  ℕ, suc, ◌+◌, ◌%◌, ◌^◌, ◌≤◌, ◌<◌, ◌≡◌, refl, Bool, true, false, not, ◌&&◌, List, [], ◌∷◌, String,
  eqb, ltb, if◌then◌else◌, length, string_eq, arith,
}
use browserkit.Common.Assoc.{Assoc, insert, remove, total, total-insert-le, total-remove-le}
use browserkit.Daemon.Targets.Owner.{one_if}

pub record CurrentDialog : Type 0 where
  pub epoch : ℕ
  pub claimed : Bool

pub record DialogCoordinator : Type 0 where
  pub next_epoch : ℕ
  pub current : Assoc String CurrentDialog

unfoldable pub new : DialogCoordinator
new = record { next_epoch = 1; current = [] }

-- The dialog of a session takes the place of an older one. The answer is its epoch.
unfoldable pub open_epoch : String → DialogCoordinator → DialogCoordinator × ℕ
open_epoch session c = (
  record {
    next_epoch = (c.next_epoch + 1) % 2 ^ 64;
    current = insert session (record { epoch = c.next_epoch; claimed = false }) c.current;
  },
  c.next_epoch,
)

-- `find` and the change of what it finds.
unfoldable pub claim_first : ℕ → Assoc String CurrentDialog → Assoc String CurrentDialog × Bool
claim_first epoch [] = ([], false)
claim_first epoch ((k, d) ∷ m) =
    let (rest, claimed) = claim_first epoch m in
    if eqb d.epoch epoch
    then if d.claimed then ((k, d) ∷ m, false) else ((k, record d { claimed = true }) ∷ m, true)
    else ((k, d) ∷ rest, claimed)

unfoldable pub claim : ℕ → DialogCoordinator → DialogCoordinator × Bool
claim epoch c =
    let (current, claimed) = claim_first epoch c.current in
    (record c { current = current }, claimed)

unfoldable pub close_current : DialogCoordinator → DialogCoordinator
close_current c = record c { current = [] }

unfoldable pub close_route : String → DialogCoordinator → DialogCoordinator
close_route session c = record c { current = remove session c.current }

pub data Call : Type 0 where
  opens closes : String → Call
  claims : ℕ → Call
  closes_all : Call

abbrev pub after_call : Call → DialogCoordinator → DialogCoordinator
after_call (opens session) c = (open_epoch session c).0
after_call (closes session) c = close_route session c
after_call (claims epoch) c = (claim epoch c).0
after_call closes_all c = close_current c

unfoldable pub run : List Call → DialogCoordinator → DialogCoordinator
run [] c = c
run (call ∷ calls) c = run calls (after_call call c)

-- How many dialogs of an epoch nobody has claimed.
abbrev unclaimed : ℕ → CurrentDialog → ℕ
unclaimed epoch d = one_if (eqb d.epoch epoch && not d.claimed)

abbrev left : ℕ → DialogCoordinator → ℕ
left epoch c = total (unclaimed epoch) c.current

claim_first-left :
    (epoch other : ℕ) (m : Assoc String CurrentDialog)
    → total (unclaimed other) (claim_first epoch m).0 ≤ total (unclaimed other) m
unfolding claim_first
claim_first-left epoch other [] = omega arith
claim_first-left epoch other ((k, d) ∷ m) = ground (arith, claim_first-left epoch other m)

claim_first-takes :
    (epoch : ℕ) (m : Assoc String CurrentDialog)
    → (claim_first epoch m).1 ≡ true
    → suc (total (unclaimed epoch) (claim_first epoch m).0) ≤ total (unclaimed epoch) m
unfolding claim_first
claim_first-takes epoch [] h = cc
claim_first-takes epoch ((k, d) ∷ m) h = ground (arith, claim_first-takes epoch m)

-- A call adds a dialog to claim only with a new epoch.
call-left :
    (call : Call) (epoch : ℕ) (c : DialogCoordinator)
    → c.next_epoch + 1 < 2 ^ 64
    → left epoch (after_call call c) + one_if (ltb epoch c.next_epoch)
      ≤ left epoch c + one_if (ltb epoch (after_call call c).next_epoch)
unfolding open_epoch claim close_current close_route
call-left (opens session) epoch c room = ground (
  arith,
  total-insert-le (unclaimed epoch) session (record { epoch = c.next_epoch; claimed = false })
      c.current,
)
call-left (closes session) epoch c room =
    omega (arith, total-remove-le (unclaimed epoch) session c.current)
call-left (claims e) epoch c room = omega (arith, claim_first-left e epoch c.current)
call-left closes_all epoch c room = omega arith

call-next :
    (call : Call) (c : DialogCoordinator)
    → c.next_epoch + 1 < 2 ^ 64
    → (after_call call c).next_epoch ≤ c.next_epoch + 1
unfolding open_epoch claim close_current close_route
call-next (opens session) c room = omega arith
call-next (closes session) c room = omega arith
call-next (claims e) c room = omega arith
call-next closes_all c room = omega arith

run-left :
    (calls : List Call) (epoch : ℕ) (c : DialogCoordinator)
    → c.next_epoch + length calls < 2 ^ 64
    → (left epoch (run calls c) + one_if (ltb epoch c.next_epoch)
        ≤ left epoch c + one_if (ltb epoch (run calls c).next_epoch))
      × ((run calls c).next_epoch ≤ c.next_epoch + length calls)
unfolding run
run-left [] epoch c room = (omega arith, omega arith)
run-left (call ∷ calls) epoch c room =
    let one = call-next call c (omega (arith, room)) in
    let (rest, next) = run-left calls epoch (after_call call c) (omega (arith, room, one)) in
    (omega (arith, rest, call-left call epoch c (omega (arith, room))), omega (arith, next, one))

one_if-le : (b : Bool) → one_if b ≤ 1
one_if-le b = ground arith

unclaimed-claim :
    (epoch : ℕ) (m : Assoc String CurrentDialog)
    → total (unclaimed epoch) m ≤ 0
    → (claim_first epoch m).1 ≡ false
unfolding claim_first
unclaimed-claim epoch [] h = refl
unclaimed-claim epoch ((k, d) ∷ m) h = ground (arith, unclaimed-claim epoch m)

-- A dialog is handled once: when a claim of an epoch succeeds, no later claim of that epoch does,
-- whatever dialogs are opened, claimed and closed before and between. The calls are fewer than the
-- epochs of the counter.
pub claim-once :
    (before between : List Call) (epoch : ℕ)
    → length before + length between + 1 < 2 ^ 64
    → (claim epoch (run before new)).1 ≡ true
    → (claim epoch (run between (claim epoch (run before new)).0)).1 ≡ false
unfolding claim new
claim-once before between epoch room taken =
    let c = run before new in
    let (counted, low) = run-left before epoch new (omega (arith, room)) in
    let fewer = claim_first-takes epoch c.current taken in
    let (kept, high) = run-left between epoch (claim epoch c).0 (omega (arith, room, low)) in
    unclaimed-claim epoch (run between (claim epoch c).0).current (
      omega (
        arith,
        counted,
        fewer,
        kept,
        one_if-le (ltb epoch c.next_epoch),
        one_if-le (ltb epoch (run between (claim epoch c).0).next_epoch),
      ))
