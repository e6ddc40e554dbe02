-- ===== src/Daemon/Dialog.antt =====
-- src/daemon/dialog.rs: pending JavaScript dialogs, the policy of each session, and the task that
-- watches the dialogs of a tab. A cancellation token is a number; an operation answers the tokens
-- that it cancels. The clock is an argument, `now`.

pub mod Policy
pub mod Cancel
pub mod Watcher
use browserkit.Common.{
  ℕ, ◌≡◌, Bool, true, false, ◌&&◌, Option, none, some, List, [], ◌∷◌, ◌++◌, String, if◌then◌else◌,
  keep, map, ◌==◌, string_eq, pair_eq,
}
use browserkit.Common.Assoc.{Assoc, lookup, insert, remove}

pub record PendingDialog : Type 0 where
  pub dialog_type : String
  pub message : String
  pub default_prompt : Option String
  pub url : String
  pub opened_at : ℕ

pub data DialogPolicy : Type 0 where
  manual accept dismiss : DialogPolicy

-- `str::to_lowercase` is an argument.
pub from_str_opt : (String → String) → String → Option DialogPolicy
from_str_opt to_lowercase s =
    let lower = to_lowercase s in
    if lower == "manual"
    then some manual
    else if lower == "accept"
    then some accept
    else if lower == "dismiss"
    then some dismiss
    else none

pub as_str : DialogPolicy → String
as_str manual = "manual"
as_str accept = "accept"
as_str dismiss = "dismiss"

-- The session's name and the target.
abbrev pub DialogKey : Type 0
DialogKey = String × String

pub record DialogState : Type 0 where
  pub pending : Assoc DialogKey PendingDialog
  pub policies : Assoc String DialogPolicy
  pub subscription_tokens : Assoc DialogKey ℕ

unfoldable pub new : DialogState
new = record { pending = []; policies = []; subscription_tokens = [] }

abbrev policy_or_default : Option DialogPolicy → DialogPolicy
policy_or_default none = manual
policy_or_default (some p) = p

unfoldable pub get_policy : String → DialogState → DialogPolicy
get_policy session_name s = policy_or_default (lookup session_name s.policies)

pub set_policy : String → DialogPolicy → DialogState → DialogState
set_policy session_name p s = record s { policies = insert session_name p s.policies }

pub set_pending : DialogKey → PendingDialog → DialogState → DialogState
set_pending key dialog s = record s { pending = insert key dialog s.pending }

pub take_pending : DialogKey → DialogState → DialogState × Option PendingDialog
take_pending key s = (record s { pending = remove key s.pending }, lookup key s.pending)

pub get_pending : DialogKey → DialogState → Option PendingDialog
get_pending key s = lookup key s.pending

-- The entries of one session, by target.
abbrev pub of_session : {V : Type 0} → String → Assoc DialogKey V → List (String × V)
of_session name [] = []
of_session name (((s, t), v) ∷ m) =
    if s == name then (t, v) ∷ of_session name m else of_session name m

pub list_pending_for_session : String → DialogState → List (String × PendingDialog)
list_pending_for_session session_name s = of_session session_name s.pending

-- The tokens that a removed entry cancels.
abbrev pub token_list : Option ℕ → List ℕ
token_list none = []
token_list (some t) = t ∷ []

unfoldable pub cancel_subscription : DialogKey → DialogState → DialogState × List ℕ
cancel_subscription key s = (
  record s {
    subscription_tokens = remove key s.subscription_tokens;
    pending = remove key s.pending;
  },
  token_list (lookup key s.subscription_tokens),
)

-- The loop of `cancel_all_for_session` over the keys that it has collected.
pub cancel_keys : List DialogKey → DialogState → DialogState × List ℕ
unfolding cancel_subscription
cancel_keys [] s = (s, [])
cancel_keys (k ∷ ks) s =
    let (t, cancelled) = cancel_subscription k s in
    let (u, rest) = cancel_keys ks t in (u, cancelled ++ rest)

abbrev pub session_keys : String → Assoc DialogKey ℕ → List DialogKey
session_keys name m = map (λ e. (name, e.0)) (of_session name m)

pub cancel_all_for_session : String → DialogState → DialogState × List ℕ
unfolding cancel_keys
cancel_all_for_session session_name s =
    let (t, cancelled) = cancel_keys (session_keys session_name s.subscription_tokens) s in
    (record t { policies = remove session_name t.policies }, cancelled)

-- The part of `spawn_dialog_subscription_for_key` before the task: an old token is cancelled.
pub replace_subscription : DialogKey → ℕ → DialogState → DialogState × List ℕ
replace_subscription key token s = (
  record s { subscription_tokens = insert key token (remove key s.subscription_tokens) },
  token_list (lookup key s.subscription_tokens),
)

-- `Page.handleJavaScriptDialog`.
pub record DialogCommand : Type 0 where
  pub accepts : Bool
  pub prompt_text : Option String

pub build_handle_params : Bool → Option String → DialogCommand
build_handle_params accepts prompt_text = record { accepts = accepts; prompt_text = prompt_text }

-- The fields of `Page.javascriptDialogOpening` that the task reads.
pub record DialogOpening : Type 0 where
  pub dialog_type : String
  pub message : String
  pub default_prompt : Option String
  pub url : String

pub pending_of : ℕ → DialogOpening → PendingDialog
pending_of now ev = record {
  dialog_type = ev.dialog_type;
  message = ev.message;
  default_prompt = ev.default_prompt;
  url = ev.url;
  opened_at = now;
}

-- The command that the task sends under a policy, if any.
pub auto_command : DialogPolicy → DialogOpening → Option DialogCommand
unfolding build_handle_params
auto_command manual ev = none
auto_command accept ev = some (build_handle_params true ev.default_prompt)
auto_command dismiss ev = some (build_handle_params false none)

-- An opening up to the point where the task awaits the answer to its command: with no command the
-- dialog is recorded.
pub opening_begin : ℕ → DialogKey → DialogOpening → DialogState → DialogState × Option DialogCommand
unfolding set_pending get_policy auto_command pending_of
opening_begin now key ev s = elim (auto_command (get_policy key.0 s) ev) [
  | none ↦ (set_pending key (pending_of now ev) s, none)
  | some cmd ↦ (s, some cmd)
]

-- From the answer on: a dialog whose command failed is recorded, so that the user can retry.
pub opening_end : ℕ → DialogKey → DialogOpening → Bool → DialogState → DialogState
unfolding set_pending pending_of
opening_end now key ev sent s = if sent then s else set_pending key (pending_of now ev) s

-- `Page.javascriptDialogClosed`.
pub on_closed : DialogKey → DialogState → DialogState
unfolding take_pending
on_closed key s = (take_pending key s).0
