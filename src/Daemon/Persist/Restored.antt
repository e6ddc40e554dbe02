-- ===== src/Daemon/Persist/Restored.antt =====
-- What src/daemon/persist.rs restores from a file, whatever the file holds.
use browserkit.Common.{
  ℕ, ◌≤◌, ◌≡◌, refl, ap, subst, ◌∙◌, ◌⊎◌, inl, inr, true, Option, List, [], ◌∷◌, String, eqb,
  Bool-cases, Option-cases, string_eq, arith, has,
}
use browserkit.Common.Assoc.{
  Assoc, insert, UniqueKeys, insert-UniqueKeys, AllValues, AllValues-insert, AllValues-map,
  total-insert-le,
}
use browserkit.Daemon.Session.{Session, SessionTab, mark_disconnected}
use browserkit.Daemon.State.{DaemonState}
use browserkit.Daemon.Targets.Owner.{Inv, TabsValid, owners, has_tab, one_if}
use browserkit.Daemon.Persist.{
  PersistedSessionTabV1, PersistedSessionV1, PersistedStateV1, PersistFlags, LoadStateResult, empty,
  into_tab, into_tabs, into_session, restore_sessions, prepare_loaded_state, disabled_empty_result,
}
use browserkit.Daemon.Persist.Validate.{
  check_session, check_sessions, validate_persisted_state, load_value, load_state_from_path,
  FileRead, content, not_found, failed, DisabledReason, read_failed, not_json, not_schema,
  no_version, unsupported_version, invalid_schema,
}
use browserkit.Daemon.Persist.Accepted.{and_then-passed, IsAccepted, check_session-passed}

-- A session that waits for its browser: valid, disconnected, and without reservations.
pub record IsWaiting (s : Session) : Type 0 where
  pub valid : TabsValid s
  pub offline : s.disconnected ≡ true
  pub unreserved : s.pending_tab_reservations ≡ 0

-- The sessions restored so far, and the targets that they may hold.
record IsRestored (m : Assoc String Session) (all : List String) : Type 0 where
  names : UniqueKeys m
  waiting : AllValues IsWaiting m
  single : (t : String) → owners t m ≤ one_if (has t all)

into_tabs-UniqueKeys :
    (ts : List PersistedSessionTabV1) (m : Assoc String SessionTab)
    → UniqueKeys m
    → UniqueKeys (into_tabs ts m)
unfolding into_tabs
into_tabs-UniqueKeys [] m u = u
into_tabs-UniqueKeys (t ∷ ts) m u =
    into_tabs-UniqueKeys ts (insert t.target_id (into_tab t) m)
      (insert-UniqueKeys t.target_id (into_tab t) m u)

module _ (trim : String → String) where
  into_session-IsWaiting :
      (p : PersistedSessionV1) (all all' : List String)
      → IsAccepted trim p all all'
      → IsWaiting (mark_disconnected (into_session p))
  unfolding mark_disconnected into_session
  into_session-IsWaiting p all all' h = record {
    valid = record { unique = into_tabs-UniqueKeys p.tabs [] tt; active = h.active };
    offline = refl;
    unreserved = refl;
  }

  insert-IsRestored :
      (p : PersistedSessionV1) (all all' : List String) (m : Assoc String Session)
      → IsAccepted trim p all all'
      → IsRestored m all
      → IsRestored (insert p.name (mark_disconnected (into_session p)) m) all'
  unfolding mark_disconnected into_session has
  insert-IsRestored p all all' m h r =
      let s = mark_disconnected (into_session p) in
      record {
        names = insert-UniqueKeys p.name s m r.names;
        waiting =
            AllValues-insert IsWaiting p.name s m (into_session-IsWaiting p all all' h) r.waiting;
        single = λ t.
            let bound = total-insert-le (has_tab t) p.name s m in
            let counted : has_tab t s ≡ one_if (has t h.mine) = ap one_if (h.tabs.keys t) in
            let before = r.single t in
            elim (Bool-cases (has t h.mine)) [
              | inl e ↦ elim (h.tabs.fresh t e) [
                | inl old ↦ cc
                | inr (out, into) ↦
                    let none_before : owners t m ≤ 0 = rw out at before in
                    let one : has_tab t s ≡ 1 = counted ∙ ap one_if e in
                    rw into (omega (arith, bound, none_before, one))
              ]
              | inr e ↦
                  let none_here : has_tab t s ≡ 0 = counted ∙ ap one_if e in
                  let kept : one_if (has t all) ≤ one_if (has t all') =
                    elim (Bool-cases (has t all)) [
                      | inl old ↦ rw (old, h.tabs.kept t old) (omega arith)
                      | inr new ↦ rw new (omega arith)
                    ] in
                  omega (arith, bound, none_here, before, kept)
            ];
      }

  restore_sessions-IsRestored :
      (ps : List PersistedSessionV1) (names all names' all' : List String)
      (m : Assoc String Session)
      → check_sessions trim ps (names, all) ≡ inr (names', all')
      → IsRestored m all
      → IsRestored (restore_sessions ps m) all'
  unfolding check_sessions restore_sessions
  restore_sessions-IsRestored [] names all names' all' m h r =
      let same : all ≡ all' = ground arith in subst (IsRestored m) same r
  restore_sessions-IsRestored (p ∷ ps) names all names' all' m h r =
      let (seen, first, rest) =
        and_then-passed (check_session trim p (names, all)) (check_sessions trim ps) (names', all')
          h in
      restore_sessions-IsRestored ps seen.0 seen.1 names' all'
        (insert p.name (mark_disconnected (into_session p)) m) rest
        (insert-IsRestored p all seen.1 m
          (check_session-passed trim p names all seen.0 seen.1 first) r)

pub Sum-cases : {A B : Type 0} (x : A ⊎ B) → ((a : A) × (x ≡ inl a)) ⊎ ((b : B) × (x ≡ inr b))
Sum-cases (inl a) = inl (a, refl)
Sum-cases (inr b) = inr (b, refl)

-- What a load gives has passed the checks, if only because it is empty.
Passed : {R : Type 0} → (String → String) → LoadStateResult R → Type 0
Passed trim loaded =
    (names all : List String) × (check_sessions trim loaded.state.sessions ([], [])
      ≡ inr (names, all))

disabled_empty_result-Passed :
    {R : Type 0} (trim : String → String) (reason : R) → Passed trim (disabled_empty_result reason)
unfolding Passed disabled_empty_result empty check_sessions
disabled_empty_result-Passed trim reason = ([], [], refl)

load_value-Passed :
    (E : Type 0) {J V : Type 0} (trim : String → String) (from_str : String → J ⊎ V)
    (version_of : V → Option ℕ) (from_value : V → J ⊎ PersistedStateV1) (v : V)
    → Passed trim (load_value {E = E} trim from_str version_of from_value v)
unfolding load_value Passed validate_persisted_state
load_value-Passed E trim from_str version_of from_value v = elim (Sum-cases (from_value v)) [
  | inl (e, h) ↦ rw (h, load_value) (disabled_empty_result-Passed trim (not_schema e))
  | inr (st, h) ↦ elim (Sum-cases (validate_persisted_state trim st)) [
    | inl (e, h') ↦ rw (h, h', load_value) (disabled_empty_result-Passed trim (invalid_schema e))
    | inr (seen, h') ↦ rw (h, h', load_value) (seen.0, seen.1, h')
  ]
]

module _ {E J V : Type 0} (trim : String → String) (from_str : String → J ⊎ V)
    (version_of : V → Option ℕ) (from_value : V → J ⊎ PersistedStateV1) where
  load_state-Passed :
      (file : FileRead E)
      → Passed trim (load_state_from_path trim from_str version_of from_value file)
  unfolding load_state_from_path Passed empty check_sessions
  load_state-Passed not_found = ([], [], refl)
  load_state-Passed (failed e) = disabled_empty_result-Passed trim (read_failed e)
  load_state-Passed (content text) = elim (Sum-cases (from_str text)) [
    | inl (e, h) ↦ rw (h, load_state_from_path) (disabled_empty_result-Passed trim (not_json e))
    | inr (v, h) ↦ elim (Option-cases (version_of v)) [
      | inl h' ↦ rw (h, h', load_state_from_path) (disabled_empty_result-Passed trim no_version)
      | inr (n, h') ↦ elim (Bool-cases (eqb n 1)) [
        | inl e ↦
            rw (h, h', e, load_state_from_path)
              (load_value-Passed E trim from_str version_of from_value v)
        | inr e ↦
            rw (h, h', e, load_state_from_path)
              (disabled_empty_result-Passed trim (unsupported_version n))
      ]
    ]
  ]

-- Whatever the file holds: with no session before, the sessions that are restored have distinct
-- names, a target is in one of them at most, their active target is one of their tabs, each is
-- disconnected and none has a reservation.
pub load_state-restored :
    {E J V : Type 0} (trim : String → String) (from_str : String → J ⊎ V)
    (version_of : V → Option ℕ) (from_value : V → J ⊎ PersistedStateV1) (file : FileRead E)
    (s : DaemonState) (flags : PersistFlags (DisabledReason E J))
    → s.sessions ≡ []
    → let after =
        (prepare_loaded_state
          (load_state_from_path trim from_str version_of from_value file)
          (s, flags)).0 in
      Inv after.sessions × AllValues IsWaiting after.sessions
unfolding prepare_loaded_state Passed
load_state-restored trim from_str version_of from_value file s flags fresh =
    let (names, all, passed) = load_state-Passed trim from_str version_of from_value file in
    let restored =
      restore_sessions-IsRestored trim
        (load_state_from_path trim from_str version_of from_value file).state.sessions [] [] names
        all [] passed (record { names = tt; waiting = tt; single = λ t. omega arith }) in
    rw fresh (
      record {
        names = restored.names;
        tabs =
            AllValues-map IsWaiting TabsValid (λ x h. h.valid)
              (restore_sessions
                (load_state_from_path trim from_str version_of from_value file).state.sessions [])
              restored.waiting;
        single = λ t. ground (arith, restored.single t);
      },
      restored.waiting,
    )
