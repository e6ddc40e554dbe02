-- ===== src/Lifecycle/Version.antt =====
-- `PageGeneration`, `DocumentEpoch` and `PageLifecycle` of src/runtime/lifecycle.rs: the version of
-- a page, by which a handle learns that its document or its page is gone.
pub mod Handles
use browserkit.Common.{
  ℕ, ◌+◌, ◌≡◌, Bool, Option, none, some, eqb, if◌then◌else◌, not, saturating_inc,
}

pub record LifecycleSnapshot : Type 0 where
  pub page_generation : ℕ
  pub document_epoch : ℕ

pub data InvalidationReason : Type 0 where
  page_replaced document_changed : InvalidationReason

-- The state of `PageLifecycle` is the snapshot under its lock.
pub new : ℕ → LifecycleSnapshot
new generation = record { page_generation = generation; document_epoch = 0 }

pub commit_new_document : LifecycleSnapshot → LifecycleSnapshot
commit_new_document v = record v { document_epoch = saturating_inc v.document_epoch }

pub replace_target : LifecycleSnapshot → LifecycleSnapshot
replace_target v = record { page_generation = saturating_inc v.page_generation; document_epoch = 0 }

-- `none` is `Ok(())`.
pub validate_page : LifecycleSnapshot → ℕ → Option InvalidationReason
validate_page current expected =
    if eqb current.page_generation expected then none else some page_replaced

pub validate_document : LifecycleSnapshot → LifecycleSnapshot → Option InvalidationReason
validate_document current expected =
    if not (eqb current.page_generation expected.page_generation)
    then some page_replaced
    else if not (eqb current.document_epoch expected.document_epoch)
    then some document_changed
    else none
