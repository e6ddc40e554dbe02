-- ===== src/Lifecycle/Report.antt =====
-- `CloseReport` and `CleanupFailure` of src/runtime/error.rs: what a close has closed, and what it
-- failed to close.
use browserkit.Common.{
  ℕ, ◌+◌, ◌≡◌, Bool, true, false, ◌&&◌, List, [], ◌∷◌, ◌++◌, String, arith, length, length-append,
}

pub record CleanupFailure : Type 0 where
  pub resource : String
  pub message : String

pub record CloseReport : Type 0 where
  pub scope : String
  pub closed_resources : List String
  pub failures : List CleanupFailure

pub new : String → CloseReport
new scope = record { scope = scope; closed_resources = []; failures = [] }

pub closed : String → CloseReport → CloseReport
closed resource r = record r { closed_resources = r.closed_resources ++ resource ∷ [] }

pub failed : String → String → CloseReport → CloseReport
failed resource message r = record r {
  failures = r.failures ++ record { resource = resource; message = message } ∷ [];
}

pub merge : CloseReport → CloseReport → CloseReport
merge a b = record a {
  closed_resources = a.closed_resources ++ b.closed_resources;
  failures = a.failures ++ b.failures;
}

abbrev is_empty : {A : Type 0} → List A → Bool
is_empty [] = true
is_empty (x ∷ xs) = false

pub is_complete : CloseReport → Bool
is_complete r = is_empty r.failures

pub attempted_count : CloseReport → ℕ
attempted_count r = length r.closed_resources + length r.failures

-- How a report is put together.
pub data Event : Type 0 where
  closes : String → Event
  fails : String → String → Event
  merges : CloseReport → Event

pub add : CloseReport → Event → CloseReport
add r (closes resource) = closed resource r
add r (fails resource message) = failed resource message r
add r (merges other) = merge r other

abbrev pub event_count : Event → ℕ
event_count (merges other) = attempted_count other
event_count _ = 1

abbrev pub event_complete : Event → Bool
event_complete (closes resource) = true
event_complete (fails resource message) = false
event_complete (merges other) = is_complete other

is_empty-append : {A : Type 0} (xs ys : List A) → is_empty (xs ++ ys) ≡ (is_empty xs && is_empty ys)
is_empty-append [] ys = ground arith
is_empty-append (x ∷ xs) ys = ground arith

-- A report loses nothing that is added to it, a merged report included: the count of attempts
-- grows by what was added, and the report stays complete exactly if it was so and what was added
-- holds no failure.
pub add-keeps :
    (r : CloseReport) (e : Event)
    → (attempted_count (add r e) ≡ attempted_count r + event_count e)
      × (is_complete (add r e) ≡ (is_complete r && event_complete e))
unfolding attempted_count is_complete add closed failed merge
add-keeps r (closes resource) = ground (arith, length-append r.closed_resources (resource ∷ []))
add-keeps r (fails resource message) = ground (
  arith,
  length-append r.failures (record { resource = resource; message = message } ∷ []),
  is_empty-append r.failures (record { resource = resource; message = message } ∷ []),
)
add-keeps r (merges other) = ground (
  arith,
  length-append r.closed_resources other.closed_resources,
  length-append r.failures other.failures,
  is_empty-append r.failures other.failures,
)
