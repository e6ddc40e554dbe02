-- ===== src/Lifecycle/Version/Handles.antt =====
-- What a handle that was taken at one version of a page is told later (src/runtime/lifecycle.rs).
use browserkit.Common.{
  ◌+◌, ◌≤◌, ◌<◌, ◌≡◌, refl, Bool, true, false, List, [], ◌∷◌, Option, none, some, arith,
  if◌then◌else◌, u64_max, length,
}
use browserkit.Lifecycle.Version.{
  LifecycleSnapshot, InvalidationReason, page_replaced, document_changed, commit_new_document,
  replace_target, validate_page, validate_document,
}

-- What happens to a page after the handle was taken.
pub data PageChange : Type 0 where
  commit replace : PageChange

pub change : LifecycleSnapshot → PageChange → LifecycleSnapshot
change v commit = commit_new_document v
change v replace = replace_target v

pub changes : LifecycleSnapshot → List PageChange → LifecycleSnapshot
changes v [] = v
changes v (c ∷ cs) = changes (change v c) cs

abbrev pub has_replace : List PageChange → Bool
has_replace [] = false
has_replace (replace ∷ cs) = true
has_replace (commit ∷ cs) = has_replace cs

-- What the handle should be told.
abbrev pub page_verdict : List PageChange → Option InvalidationReason
page_verdict cs = if has_replace cs then some page_replaced else none

abbrev pub document_verdict : List PageChange → Option InvalidationReason
document_verdict [] = none
document_verdict (c ∷ cs) =
    if has_replace (c ∷ cs) then some page_replaced else some document_changed

changes-le :
    (v : LifecycleSnapshot) (cs : List PageChange)
    → v.page_generation + length cs ≤ u64_max
    → v.page_generation ≤ (changes v cs).page_generation
unfolding changes change commit_new_document replace_target
changes-le v [] h = omega arith
changes-le v (commit ∷ cs) h = ground (arith, changes-le (commit_new_document v) cs)
changes-le v (replace ∷ cs) h = ground (arith, changes-le (replace_target v) cs)

changes-replaced :
    (v : LifecycleSnapshot) (cs : List PageChange)
    → v.page_generation + length cs ≤ u64_max
    → has_replace cs ≡ true
    → v.page_generation < (changes v cs).page_generation
unfolding changes change commit_new_document replace_target
changes-replaced v [] h r = cc
changes-replaced v (commit ∷ cs) h r = ground (arith, changes-replaced (commit_new_document v) cs)
changes-replaced v (replace ∷ cs) h r = ground (arith, changes-le (replace_target v) cs)

changes-committed :
    (v : LifecycleSnapshot) (cs : List PageChange)
    → v.document_epoch + length cs ≤ u64_max
    → has_replace cs ≡ false
    → ((changes v cs).page_generation ≡ v.page_generation)
      × ((changes v cs).document_epoch ≡ v.document_epoch + length cs)
unfolding changes change commit_new_document replace_target
changes-committed v [] h r = (refl, omega arith)
changes-committed v (commit ∷ cs) h r = ground (arith, changes-committed (commit_new_document v) cs)
changes-committed v (replace ∷ cs) h r = cc

-- While the counters are below their largest `u64`: after any changes, a page handle is told that
-- its page was replaced exactly if one of the changes replaced it; a document handle is told the
-- same, else that its document changed exactly if there was any change.
pub changes-verdict :
    (v : LifecycleSnapshot) (cs : List PageChange)
    → v.page_generation + length cs ≤ u64_max
    → v.document_epoch + length cs ≤ u64_max
    → (validate_page (changes v cs) v.page_generation ≡ page_verdict cs)
      × (validate_document (changes v cs) v ≡ document_verdict cs)
unfolding validate_page validate_document changes
changes-verdict v [] h k = ground arith
changes-verdict v (c ∷ cs) h k =
    ground (arith, changes-replaced v (c ∷ cs), changes-committed v (c ∷ cs))
