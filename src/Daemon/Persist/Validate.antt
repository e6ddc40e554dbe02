-- ===== src/Daemon/Persist/Validate.antt =====
-- `validate_persisted_state` and `load_state_from_path` of src/daemon/persist.rs. `trim` is
-- `str::trim`. An error is its message with the names that it quotes.
use browserkit.Common.{
  ℕ, Bool, true, false, not, ◌&&◌, Option, none, some, List, [], ◌∷◌, String, inl, inr, ◌⊎◌, eqb,
  if◌then◌else◌, is_some, ◌==◌, string_eq, has, add,
}
use browserkit.Daemon.Session.{SessionMode, default, isolated, TabOwnership, owned, attached}
use browserkit.Daemon.Persist.{
  PersistedSessionTabV1, PersistedSessionV1, PersistedStateV1, LoadStateResult, empty,
  disabled_empty_result,
}

pub data SchemaError : Type 0 where
  name_empty default_with_context default_isolated : SchemaError
  name_padded duplicate_name host_empty host_padded named_default : String → SchemaError
  context_missing context_padded tab_empty tab_padded : String → SchemaError
  duplicate_tab : (target_id name : String) → SchemaError
  shared_target : String → SchemaError
  attached_in_isolated : (name target_id : String) → SchemaError
  active_empty active_padded active_missing : String → SchemaError
  active_unknown : (name active : String) → SchemaError

abbrev pub Check : Type 0 → Type 0
Check A = SchemaError ⊎ A

-- The next check, when the one before has passed.
abbrev pub and_then : {A B : Type 0} → Check A → (A → Check B) → Check B
and_then (inl e) f = inl e
and_then (inr a) f = f a

abbrev pub is_attached_tab : TabOwnership → Bool
is_attached_tab owned = false
is_attached_tab attached = true

abbrev pub is_isolated : SessionMode → Bool
is_isolated default = false
is_isolated isolated = true

-- The targets of the session and those of all sessions so far.
abbrev pub Seen : Type 0
Seen = List String × List String

module _ (trim : String → String) where
  unfoldable pub is_blank : String → Bool
  is_blank text = trim text == ""

  unfoldable pub is_padded : String → Bool
  is_padded text = not (trim text == text)

  unfoldable pub check_name : PersistedSessionV1 → List String → Check (List String)
  check_name p names =
      if is_blank p.name
      then inl name_empty
      else if is_padded p.name
      then inl (name_padded p.name)
      else if has (trim p.name) names
      then inl (duplicate_name p.name)
      else inr (add (trim p.name) names)

  unfoldable pub check_host : PersistedSessionV1 → Check (Unit {0})
  check_host p =
      if is_blank p.browser_host
      then inl (host_empty p.name)
      else if is_padded p.browser_host
      then inl (host_padded p.name)
      else inr tt

  unfoldable pub check_context : String → Option String → Check (Unit {0})
  check_context name none = inl (context_missing name)
  check_context name (some context) =
      if is_blank context
      then inl (context_missing name)
      else if is_padded context
      then inl (context_padded name)
      else inr tt

  unfoldable pub check_mode : PersistedSessionV1 → Check (Unit {0})
  check_mode p =
      if p.name == "default"
      then elim p.mode [
        | default ↦ if is_some p.browser_context_id then inl default_with_context else inr tt
        | isolated ↦ inl default_isolated
      ]
      else elim p.mode [
        | default ↦ inl (named_default p.name)
        | isolated ↦ check_context p.name p.browser_context_id
      ]

  unfoldable pub check_tab : PersistedSessionV1 → PersistedSessionTabV1 → Seen → Check Seen
  check_tab p tab (mine, all) =
      let target = trim tab.target_id in
      if is_blank tab.target_id
      then inl (tab_empty p.name)
      else if is_padded tab.target_id
      then inl (tab_padded p.name)
      else if has target mine
      then inl (duplicate_tab tab.target_id p.name)
      else if has target all
      then inl (shared_target tab.target_id)
      else if is_isolated p.mode && is_attached_tab tab.ownership
      then inl (attached_in_isolated p.name tab.target_id)
      else inr (add target mine, add target all)

  unfoldable pub check_tabs : PersistedSessionV1 → List PersistedSessionTabV1 → Seen → Check Seen
  check_tabs p [] seen = inr seen
  check_tabs p (tab ∷ tabs) seen = and_then (check_tab p tab seen) (check_tabs p tabs)

  unfoldable pub check_active : PersistedSessionV1 → Seen → Check (List String)
  check_active p (mine, all) = elim p.active_target [
    | none ↦ elim p.tabs [ [] ↦ inr all | tab ∷ tabs ↦ inl (active_missing p.name) ]
    | some active ↦
        if is_blank active
        then inl (active_empty p.name)
        else if is_padded active
        then inl (active_padded p.name)
        else if has active mine
        then inr all
        else inl (active_unknown p.name active)
  ]

  -- One round of the loop: from the names and targets so far to those with the session's.
  unfoldable pub check_session : PersistedSessionV1 → Seen → Check Seen
  check_session p (names, all) = and_then (check_name p names) (λ names'.
      and_then (check_host p) (λ u. and_then (check_mode p) (λ v.
        and_then (check_tabs p p.tabs ([], all))
          (λ seen. and_then (check_active p seen) (λ all'. inr (names', all'))))))

  unfoldable pub check_sessions : List PersistedSessionV1 → Seen → Check Seen
  check_sessions [] seen = inr seen
  check_sessions (p ∷ ps) seen = and_then (check_session p seen) (check_sessions ps)

  unfoldable pub validate_persisted_state : PersistedStateV1 → Check Seen
  validate_persisted_state st = check_sessions st.sessions ([], [])

-- What the read of the file gives.
pub data FileRead (E : Type 0) : Type 0 where
  content : String → FileRead E
  not_found : FileRead E
  failed : E → FileRead E

-- The reason for which persistence is disabled. `J` is the type of the errors of serde.
pub data DisabledReason (E J : Type 0) : Type 0 where
  read_failed : E → DisabledReason E J
  not_json not_schema : J → DisabledReason E J
  no_version : DisabledReason E J
  unsupported_version : ℕ → DisabledReason E J
  invalid_schema : SchemaError → DisabledReason E J

-- `from_str`, the numeric field `version` and `from_value` are those of serde_json.
module _ {E J V : Type 0} (trim : String → String) (from_str : String → J ⊎ V)
    (version_of : V → Option ℕ) (from_value : V → J ⊎ PersistedStateV1) where
  unfoldable pub load_value : V → LoadStateResult (DisabledReason E J)
  load_value v = elim (from_value v) [
    | inl e ↦ disabled_empty_result (not_schema e)
    | inr st ↦ elim (validate_persisted_state trim st) [
      | inl e ↦ disabled_empty_result (invalid_schema e)
      | inr seen ↦ record { state = st; persist_disabled = false; persist_disabled_reason = none }
    ]
  ]

  unfoldable pub load_state_from_path : FileRead E → LoadStateResult (DisabledReason E J)
  load_state_from_path not_found = record {
    state = empty;
    persist_disabled = false;
    persist_disabled_reason = none;
  }
  load_state_from_path (failed e) = disabled_empty_result (read_failed e)
  load_state_from_path (content text) = elim (from_str text) [
    | inl e ↦ disabled_empty_result (not_json e)
    | inr v ↦ elim (version_of v) [
      | none ↦ disabled_empty_result no_version
      | some version ↦
          if not (eqb version 1)
          then disabled_empty_result (unsupported_version version)
          else load_value v
    ]
  ]
