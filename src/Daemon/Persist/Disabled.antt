-- ===== src/Daemon/Persist/Disabled.antt =====
-- Which files src/daemon/persist.rs refuses to write over.
use browserkit.Common.{
  ℕ, ◌≡◌, ◌↔◌, refl, sym, ◌∙◌, ◌⊎◌, inl, inr, true, false, ◌||◌, Option, some, String, is_some, eqb,
  eqb_iff, Bool-cases, Option-cases, arith,
}
use browserkit.Daemon.State.{DaemonState}
use browserkit.Daemon.Persist.{
  PersistedStateV1, PersistFlags, prepare_loaded_state, disabled_empty_result, do_persist,
  record_runtime_persist_result,
}
use browserkit.Daemon.Persist.Validate.{
  Seen, validate_persisted_state, load_value, load_state_from_path, FileRead, content, not_found,
  failed, DisabledReason,
}
use browserkit.Daemon.Persist.Restored.{Sum-cases}

module _ {J V : Type 0} (trim : String → String) (from_str : String → J ⊎ V)
    (version_of : V → Option ℕ) (from_value : V → J ⊎ PersistedStateV1) where
  -- A file that the daemon has understood: there is none, or it is JSON of version 1 that has the
  -- schema and passes the checks.
  pub IsReadable : {E : Type 0} → FileRead E → Type 0
  IsReadable not_found = Unit
  IsReadable (failed e) = ⊥
  IsReadable (content text) =
      (v : V) × (st : PersistedStateV1) × (seen : Seen) × (from_str text ≡ inr v)
      × (version_of v ≡ some 1)
      × (from_value v ≡ inr st)
      × (validate_persisted_state trim st ≡ inr seen)

  load_value-allowed :
      (E : Type 0) (text : String) (v : V)
      → from_str text ≡ inr v
      → version_of v ≡ some 1
      → ((load_value {E = E} trim from_str version_of from_value v).persist_disabled ≡ false)
        ↔ IsReadable {E = E} (content text)
  unfolding load_value disabled_empty_result IsReadable
  load_value-allowed E text v p n = elim (Sum-cases (from_value v)) [
    | inl (e, h) ↦
        (λ q. absurd (ground (arith, h)), λ (u, st, seen, p', n', h', c). absurd (ground arith))
    | inr (st, h) ↦ elim (Sum-cases (validate_persisted_state trim st)) [
      | inl (e, c) ↦
          (λ q. absurd (ground arith), λ (u, st', seen, p', n', h', c'). absurd (ground arith))
      | inr (seen, c) ↦ (λ q. (v, st, seen, p, n, h, c), λ r. ground arith)
    ]
  ]

  load_state-allowed :
      {E : Type 0} (file : FileRead E)
      → ((load_state_from_path trim from_str version_of from_value file).persist_disabled ≡ false)
        ↔ IsReadable file
  unfolding load_state_from_path disabled_empty_result IsReadable
  load_state-allowed not_found = (λ q. tt, λ q. refl)
  load_state-allowed (failed e) = (λ q. absurd cc, λ q. absurd q)
  load_state-allowed {E} (content text) = elim (Sum-cases (from_str text)) [
    | inl (e, p) ↦
        (λ q. absurd (ground arith), λ (v, st, seen, p', n', h', c'). absurd (ground arith))
    | inr (v, p) ↦ elim (Option-cases (version_of v)) [
      | inl n ↦ (λ q. absurd (ground arith), λ (u, st, seen, p', n', h', c'). absurd (ground arith))
      | inr (k, n) ↦ elim (Bool-cases (eqb k 1)) [
        | inl e ↦
            let one : version_of v ≡ some 1 = ground (arith, eqb_iff k 1) in
            let same : (load_state_from_path {E = E} trim from_str version_of from_value
                  (content text)).persist_disabled
                ≡ (load_value {E = E} trim from_str version_of from_value v).persist_disabled =
              ground arith in
            let (there, back) = load_value-allowed E text v p one in
            (λ q. there (sym same ∙ q), λ r. same ∙ back r)
        | inr e ↦ (
          λ q. absurd (ground arith),
          λ (u, st, seen, p', n', h', c'). absurd (ground (arith, eqb_iff k 1)),
        )
      ]
    ]
  ]

-- In a daemon whose persistence was not disabled before the load, and whatever has become of its
-- state since: a save writes something exactly if the file at the load was readable, that is there
-- was none, or it was JSON of version 1 with the schema that passed the checks. A save that writes
-- nothing answers an error.
pub load_state-do_persist :
    {E J V : Type 0} (trim : String → String) (from_str : String → J ⊎ V)
    (version_of : V → Option ℕ) (from_value : V → J ⊎ PersistedStateV1) (file : FileRead E)
    (s later : DaemonState) (flags : PersistFlags (DisabledReason E J))
    (disabled : DisabledReason E J) (write : PersistedStateV1 → Option (DisabledReason E J))
    → flags.persist_disabled ≡ false
    → let (after, answer, written) =
        do_persist disabled write later
          (prepare_loaded_state
            (load_state_from_path trim from_str version_of from_value file)
            (s, flags)).1 in
      ((is_some written ≡ true) ↔ IsReadable trim from_str version_of from_value file)
      × ((is_some written || is_some answer) ≡ true)
unfolding do_persist prepare_loaded_state record_runtime_persist_result
load_state-do_persist trim from_str version_of from_value file s later flags disabled write on =
    let (there, back) = load_state-allowed trim from_str version_of from_value file in
    elim (Bool-cases
      (load_state_from_path trim from_str version_of from_value file).persist_disabled) [
        | inl e ↦
            rw (e, do_persist, prepare_loaded_state)
              ((λ q. absurd cc, λ r. absurd (ground (arith, back r))), refl)
        | inr e ↦
            rw (e, on, do_persist, prepare_loaded_state, record_runtime_persist_result)
              ((λ q. there e, λ r. refl), refl)
      ]
