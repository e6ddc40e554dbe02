-- ===== src/Runtime/TargetClose.antt =====
-- The close of a target in src/runtime/target_close.rs: what counts as evidence that it is gone. The
-- stream of `Target.targetDestroyed` is the list of what it gives until the deadline.
use browserkit.Common.{
  ◌≡◌, ◌≢◌, refl, ◌⊎◌, inl, inr, Bool, true, false, ◌||◌, Option, none, some, List, [], ◌∷◌, String,
  if◌then◌else◌, Bool-cases, ◌==◌, string_eq, has, arith,
}
use browserkit.Lifecycle.Pending.{Outcome}
use browserkit.Lifecycle.Pending.Errors.{OwnershipCleanupError, target_still_present}

-- An event for a target, an error of the stream, or the end of what is queued at the moment of the
-- answer. The end of the stream and the deadline are the end of the list.
pub data Item : Type 0 where
  destroyed : String → Item
  failed pause : Item

pub data TargetCloseDispatch : Type 0 where
  acknowledged : Bool → TargetCloseDispatch
  missing_target : TargetCloseDispatch

-- The `Err` that the close command gives, or its answer.
pub data Close : Type 0 where
  refused : OwnershipCleanupError → Close
  answered : TargetCloseDispatch → Close

unfoldable pub wait_for_destroyed_or_confirm_absent : String → List Item → Outcome → Outcome
wait_for_destroyed_or_confirm_absent target [] confirmation = confirmation
wait_for_destroyed_or_confirm_absent target (destroyed id ∷ items) confirmation =
    let rest = wait_for_destroyed_or_confirm_absent target items confirmation in
    if id == target then none else rest
wait_for_destroyed_or_confirm_absent target (failed ∷ items) confirmation = confirmation
wait_for_destroyed_or_confirm_absent target (pause ∷ items) confirmation =
    wait_for_destroyed_or_confirm_absent target items confirmation

-- The loop over what is queued already.
unfoldable pub drain_queued : String → List Item → Outcome → Outcome
drain_queued target [] confirmation = confirmation
drain_queued target (destroyed id ∷ items) confirmation =
    let rest = drain_queued target items confirmation in if id == target then none else rest
drain_queued target (failed ∷ items) confirmation = confirmation
drain_queued target (pause ∷ items) confirmation = confirmation

-- `subscribed` is the error of the subscription, if it fails.
unfoldable pub close_created_target_and_wait :
    String → Option OwnershipCleanupError → Close → List Item → Outcome → Outcome
close_created_target_and_wait target (some e) close items confirmation = some e
close_created_target_and_wait target none (refused e) items confirmation = some e
close_created_target_and_wait target none (answered (acknowledged true)) items confirmation =
    wait_for_destroyed_or_confirm_absent target items confirmation
close_created_target_and_wait target none (answered (acknowledged false)) items confirmation =
    confirmation
close_created_target_and_wait target none (answered missing_target) items confirmation =
    drain_queued target items confirmation

-- `confirm_target_absent`, on the error of `Target.getTargets` or the targets that it lists.
unfoldable pub confirm_target_absent : String → OwnershipCleanupError ⊎ List String → Outcome
confirm_target_absent target (inl e) = some e
confirm_target_absent target (inr targets) =
    if has target targets then some (target_still_present target) else none

-- Whether an event of the list says that the target is destroyed.
pub reports : String → List Item → Bool
reports target [] = false
reports target (destroyed id ∷ items) = (id == target) || reports target items
reports target (failed ∷ items) = reports target items
reports target (pause ∷ items) = reports target items

wait-evidence :
    (target : String) (items : List Item) (confirmation : Outcome)
    → wait_for_destroyed_or_confirm_absent target items confirmation ≡ none
    → (reports target items ≡ true) ⊎ (confirmation ≡ none)
unfolding wait_for_destroyed_or_confirm_absent reports
wait-evidence target [] confirmation h = inr h
wait-evidence target (destroyed id ∷ items) confirmation h = elim (Bool-cases (id == target)) [
  | inl e ↦ inl (rw e refl)
  | inr e ↦ ground (arith, wait-evidence target items confirmation)
]
wait-evidence target (failed ∷ items) confirmation h = inr h
wait-evidence target (pause ∷ items) confirmation h = wait-evidence target items confirmation h

drain-evidence :
    (target : String) (items : List Item) (confirmation : Outcome)
    → drain_queued target items confirmation ≡ none
    → (reports target items ≡ true) ⊎ (confirmation ≡ none)
unfolding drain_queued reports
drain-evidence target [] confirmation h = inr h
drain-evidence target (destroyed id ∷ items) confirmation h = elim (Bool-cases (id == target)) [
  | inl e ↦ inl (rw e refl)
  | inr e ↦ ground (arith, drain-evidence target items confirmation)
]
drain-evidence target (failed ∷ items) confirmation h = inr h
drain-evidence target (pause ∷ items) confirmation h = inr h

-- What the browser has said of a target.
pub data IsGone (target : String) (close : Close) (items : List Item)
    (listing : OwnershipCleanupError ⊎ List String) : Type 0 where
  reported :
      reports target items ≡ true
      → close ≢ answered (acknowledged false)
      → IsGone target close items listing
  not_listed :
      (targets : List String)
      → listing ≡ inr targets
      → has target targets ≡ false
      → IsGone target close items listing

listing-absent :
    (target : String) (close : Close) (items : List Item)
    (listing : OwnershipCleanupError ⊎ List String)
    → confirm_target_absent target listing ≡ none
    → IsGone target close items listing
unfolding confirm_target_absent
listing-absent target close items (inl e) h = cc
listing-absent target close items (inr targets) h = not_listed targets refl (ground arith)

-- A close of a target that succeeds has evidence: an event that says that the target is destroyed,
-- unless the browser has answered that it did not close it; or else a list of the browser's targets
-- without it.
pub close_created_target-IsGone :
    (target : String) (subscribed : Option OwnershipCleanupError) (close : Close)
    (items : List Item) (listing : OwnershipCleanupError ⊎ List String)
    → close_created_target_and_wait target subscribed close items
        (confirm_target_absent target listing)
      ≡ none
    → IsGone target close items listing
unfolding close_created_target_and_wait
close_created_target-IsGone target (some e) close items listing h = cc
close_created_target-IsGone target none (refused e) items listing h = cc
close_created_target-IsGone target none (answered (acknowledged true)) items listing h =
    elim (wait-evidence target items (confirm_target_absent target listing) h) [
      | inl seen ↦ reported seen (λ e. cc)
      | inr absent ↦ listing-absent target (answered (acknowledged true)) items listing absent
    ]
close_created_target-IsGone target none (answered (acknowledged false)) items listing h =
    listing-absent target (answered (acknowledged false)) items listing h
close_created_target-IsGone target none (answered missing_target) items listing h =
    elim (drain-evidence target items (confirm_target_absent target listing) h) [
      | inl seen ↦ reported seen (λ e. cc)
      | inr absent ↦ listing-absent target (answered missing_target) items listing absent
    ]
