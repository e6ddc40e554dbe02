-- ===== src/Daemon/Dialog/Policy.antt =====
-- The dialog policy of src/daemon/dialog.rs as text and as state.
use Prim.Native.String.{String}
use browserkit.Common.{◌≡◌, ◌↔◌, refl, some, arith, if◌then◌else◌, string_eq, ◌==◌}
use browserkit.Common.Assoc.{lookup-insert}
use browserkit.Daemon.Dialog.{
  DialogPolicy, DialogState, manual, accept, dismiss, from_str_opt, as_str, get_policy, set_policy,
}

-- A text is read as a policy exactly if the lowercase function takes it to the policy's own text.
pub from_str_opt-as_str :
    (to_lowercase : String → String) (s : String) (p : DialogPolicy)
    → (from_str_opt to_lowercase s ≡ some p) ↔ (to_lowercase s ≡ as_str p)
unfolding from_str_opt as_str
from_str_opt-as_str to_lowercase s manual = (
  λ h. ground (
    arith,
    string_eq.beq_iff (to_lowercase s) "manual",
    string_eq.beq_iff (to_lowercase s) "accept",
    string_eq.beq_iff (to_lowercase s) "dismiss",
  ),
  λ h. rw (h, from_str_opt) refl,
)
from_str_opt-as_str to_lowercase s accept = (
  λ h. ground (
    arith,
    string_eq.beq_iff (to_lowercase s) "manual",
    string_eq.beq_iff (to_lowercase s) "accept",
    string_eq.beq_iff (to_lowercase s) "dismiss",
  ),
  λ h. rw (h, from_str_opt) refl,
)
from_str_opt-as_str to_lowercase s dismiss = (
  λ h. ground (
    arith,
    string_eq.beq_iff (to_lowercase s) "manual",
    string_eq.beq_iff (to_lowercase s) "accept",
    string_eq.beq_iff (to_lowercase s) "dismiss",
  ),
  λ h. rw (h, from_str_opt) refl,
)

-- A policy that is set is the session's policy, and no other session's is changed.
pub get_policy-set_policy :
    (name other : String) (p : DialogPolicy) (s : DialogState)
    → get_policy other (set_policy name p s) ≡ (if name == other then p else get_policy other s)
unfolding get_policy set_policy
get_policy-set_policy name other p s = ground (arith, lookup-insert name other p s.policies)
