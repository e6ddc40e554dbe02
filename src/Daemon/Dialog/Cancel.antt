-- ===== src/Daemon/Dialog/Cancel.antt =====
-- What a cancelled session or tab leaves behind in the dialog state of src/daemon/dialog.rs.
use browserkit.Common.{
  ℕ, ◌≡◌, refl, Bool, true, false, ◌&&◌, none, some, List, [], ◌∷◌, String, arith, if◌then◌else◌,
  ◌==◌, string_eq, pair_eq, is_some,
}
use browserkit.Common.Assoc.{Assoc, lookup, remove, lookup-remove, lookup-insert}
use browserkit.Daemon.Dialog.{
  list_pending_for_session, of_session, DialogKey, DialogState, manual, get_policy, get_pending,
  cancel_subscription, cancel_keys, cancel_all_for_session, session_keys, replace_subscription,
  token_list,
}

-- Whether a key is one of a list.
abbrev listed : DialogKey → List DialogKey → Bool
listed k [] = false
listed k (j ∷ ks) = if j == k then true else listed k ks

cancel_keys_lem :
    (k : DialogKey) (ks : List DialogKey) (s : DialogState)
    → (lookup k (cancel_keys ks s).0.subscription_tokens
        ≡ (if listed k ks then none else lookup k s.subscription_tokens))
      × (lookup k (cancel_keys ks s).0.pending ≡ (if listed k ks then none else lookup k s.pending))
      × ((cancel_keys ks s).0.policies ≡ s.policies)
unfolding cancel_keys cancel_subscription
cancel_keys_lem k [] s = (refl, refl, refl)
cancel_keys_lem k (j ∷ ks) s = ground (
  arith,
  cancel_keys_lem k ks (cancel_subscription j s).0,
  lookup-remove j k s.subscription_tokens,
  lookup-remove j k s.pending,
)

-- The collected keys are those of the session that have a subscription.
session_keys_lem :
    (name t : String) (session : String) (m : Assoc DialogKey ℕ)
    → listed (name, t) (session_keys session m)
      ≡ ((session == name) && is_some (lookup (name, t) m))
unfolding lookup
session_keys_lem name t session [] = ground arith
session_keys_lem name t session (((n, u), v) ∷ m) = ground (
  arith,
  string_eq.beq_iff n session,
  string_eq.beq_iff session name,
  string_eq.beq_iff n name,
  string_eq.beq_iff u t,
  session_keys_lem name t session m,
)

-- After `cancel_all_for_session` no tab of the session has a subscription, and every tab of it that
-- had one has no pending dialog; the session's policy is manual again. The tabs and the policies of
-- all other sessions are as before.
pub cancel_all_for_session_lem :
    (session name t : String) (s : DialogState)
    → let u = (cancel_all_for_session session s).0 in
      let mine = session == name in
      (lookup (name, t) u.subscription_tokens
        ≡ (if mine then none else lookup (name, t) s.subscription_tokens))
      × (get_pending (name, t) u ≡ (
          if mine && is_some (lookup (name, t) s.subscription_tokens)
          then none
          else get_pending (name, t) s))
      × (get_policy name u ≡ (if mine then manual else get_policy name s))
unfolding cancel_all_for_session get_pending get_policy
cancel_all_for_session_lem session name t s = ground (
  arith,
  cancel_keys_lem (name, t) (session_keys session s.subscription_tokens) s,
  session_keys_lem name t session s.subscription_tokens,
  lookup-remove session name s.policies,
)

-- A respawned watcher has its own token in the map, the token of the one before it is cancelled, and
-- the other watchers keep theirs.
pub replace_subscription_lem :
    (key other : DialogKey) (token : ℕ) (s : DialogState)
    → let (t, cancelled) = replace_subscription key token s in
      (lookup other t.subscription_tokens
        ≡ (if key == other then some token else lookup other s.subscription_tokens))
      × (cancelled ≡ token_list (lookup key s.subscription_tokens))
unfolding replace_subscription
replace_subscription_lem key other token s = ground (
  arith,
  lookup-insert key other token (remove key s.subscription_tokens),
  lookup-remove key other s.subscription_tokens,
)

abbrev has_target : {V : Type 0} → String → List (String × V) → Bool
has_target t [] = false
has_target t ((u, v) ∷ es) = if u == t then true else has_target t es

of_session-lookup :
    {V : Type 0} (name t : String) (m : Assoc DialogKey V)
    → has_target t (of_session name m) ≡ is_some (lookup (name, t) m)
unfolding lookup
of_session-lookup name t [] = refl
of_session-lookup name t (((n, u), v) ∷ m) =
    ground (arith, string_eq.beq_iff n name, string_eq.beq_iff u t, of_session-lookup name t m)

-- The list of a session's pending dialogs names a target exactly if a dialog is pending for it.
pub list_pending_for_session-get_pending :
    (name t : String) (s : DialogState)
    → has_target t (list_pending_for_session name s) ≡ is_some (get_pending (name, t) s)
unfolding list_pending_for_session get_pending
list_pending_for_session-get_pending name t s = of_session-lookup name t s.pending
