-- ===== src/Daemon/Targets/Watcher/Rechecks.antt =====
-- What the second look under the session's lock is for, in the handlers of the target watcher of
-- src/daemon/target_lifecycle.rs.
use mathlib.Core.List.{append-nil}
use browserkit.Common.{
  ℕ, ◌≡◌, refl, sym, Bool, true, false, ◌&&◌, Option, none, some, String, if◌then◌else◌, string_eq,
  Option-cases, Bool-cases, inl, inr, arith, ◌==◌, List, [], ◌∷◌, ◌++◌,
}
use browserkit.Daemon.State.{DaemonState, TargetLifecycleEvent, destroyed}
use browserkit.Daemon.Targets.{find_target_owner, is_text}
use browserkit.Daemon.Targets.Owner.{Inv}
use browserkit.Daemon.Targets.Outcome.{remove_session_tab-owner}
use browserkit.Daemon.Targets.Watcher.{handle_target_destroyed_event}

-- Whether both looks find the same session.
abbrev pub agree : Option String → Option String → Bool
agree (some a) (some b) = a == b
agree _ _ = false

is_text-agree : (name : String) (o : Option String) → is_text name o ≡ agree (some name) o
is_text-agree name none = refl
is_text-agree name (some o) = ground (arith, string_eq.beq_iff o name, string_eq.beq_iff name o)

agree-same : (name : String) (o : Option String) → agree (some name) o ≡ true → o ≡ some name
agree-same name none h = cc
agree-same name (some o) h = ground (arith, string_eq.beq_iff name o)

abbrev pub reported : Bool → Option String → String → List TargetLifecycleEvent
reported true (some name) target_id = destroyed name target_id ∷ []
reported _ _ target_id = []

-- The handler of a destroyed target, where the invariant of the sessions holds under the lock: if the
-- target is owned by the same session at the event and under the lock, it has no owner afterwards, and
-- one event is sent, which names the owner. If it has moved to another session meanwhile, has lost its
-- session or has got one, it keeps the owner that it has, and no event is sent. Every other target
-- keeps its owner.
pub handle_target_destroyed_event-owner :
    (now : ℕ) (first d : DaemonState) (target_id other : String)
    → Inv d.sessions
    → let after = handle_target_destroyed_event now first d target_id in
      let owner = find_target_owner d target_id in
      let same = agree (find_target_owner first target_id) owner in
      (find_target_owner after other
        ≡ (if same && (target_id == other) then none else find_target_owner d other))
      × (after.target_events ≡ d.target_events ++ reported same owner target_id)
unfolding handle_target_destroyed_event
handle_target_destroyed_event-owner now first d target_id other v =
    elim (Option-cases (find_target_owner first target_id)) [
      | inl e ↦ rw (e, handle_target_destroyed_event) (refl, sym (append-nil d.target_events))
      | inr (name, e) ↦
          rw (e, handle_target_destroyed_event, is_text-agree)
            (elim (Bool-cases (agree (some name) (find_target_owner d target_id))) [
              | inl f ↦
                  let held = agree-same name (find_target_owner d target_id) f in
                  let (answer, owner, sent) = remove_session_tab-owner now d target_id other v in
                  ground (arith, answer, owner, sent)
              | inr f ↦ rw f (refl, sym (append-nil d.target_events))
            ])
    ]
