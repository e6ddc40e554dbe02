-- ===== src/Daemon/Targets/Outcome.antt =====
-- What a registration and a removal of src/daemon/target_lifecycle.rs answer, and what they do to
-- the owner of every target.
use mathlib.Core.Option
use mathlib.Core.List.{append-nil}
use browserkit.Common.{
  beq_refl, is_some-value, ℕ, ◌≡◌, refl, sym, Bool, true, false, none, some, [], ◌∷◌, ◌++◌, String,
  arith, if◌then◌else◌, ◌==◌, string_eq, pair_eq, Bool-cases, Option-cases, inl, inr, is_some, not,
  ◌&&◌,
}
use browserkit.Common.Assoc.{Assoc, lookup, modify, contains_key, total-modify}
use browserkit.Daemon.Error.{Result, ok}
use browserkit.Daemon.Session.{Session, SessionTab, touch, without_tab}
use browserkit.Daemon.State.{DaemonState, destroyed}
use browserkit.Daemon.Targets.{
  find_owner, find_target_owner, track_tab, with_session, register_initialized_session_tab,
  registered, already_tracked, SessionTabRegistration, is_text, remove_session_tab, after_removal,
}
use browserkit.Daemon.Targets.Owner.{
  Inv, owners, has_tab, find_owner-contains, has_tab-track_tab, has_tab-without_tab,
}

find_owner-of_owners :
    (t : String) (m : Assoc String Session) → owners t m ≡ 0 → find_owner t m ≡ none
unfolding find_owner
find_owner-of_owners t [] h = refl
find_owner-of_owners t ((n, s) ∷ m) h = ground (arith, find_owner-of_owners t m)

-- A change of a session that keeps whether it has a target keeps the target's owner.
find_owner-modify :
    (t n : String) (f : Session → Session) (m : Assoc String Session)
    → ((s : Session) → has_tab t (f s) ≡ has_tab t s)
    → find_owner t (modify n f m) ≡ find_owner t m
unfolding find_owner modify
find_owner-modify t n f [] h = refl
find_owner-modify t n f ((k, s) ∷ m) h = ground (arith, h s, find_owner-modify t n f m h)

-- A session that takes a target with no owner becomes its owner.
find_owner-taken :
    (t n : String) (f : Session → Session) (s : Session) (m : Assoc String Session)
    → has_tab t (f s) ≡ 1
    → lookup n m ≡ some s
    → find_owner t m ≡ none
    → find_owner t (modify n f m) ≡ some n
unfolding find_owner modify lookup
find_owner-taken t n f s [] h l e = cc
find_owner-taken t n f s ((k, v) ∷ m) h l e =
    ground (arith, string_eq.beq_iff k n, find_owner-taken t n f s m h)

abbrev pub is_registered : Result SessionTabRegistration → Bool
is_registered (ok registered) = true
is_registered _ = false

abbrev pub is_tracked : Result SessionTabRegistration → Bool
is_tracked (ok already_tracked) = true
is_tracked _ = false

-- A tab is registered exactly if its target has no owner and the session is there. The session is
-- then the owner of that target, and every other target, and every target on any other answer, has
-- the owner that it had. The answer is that the target is tracked already exactly if the session
-- owned it.
pub register_initialized-owner :
    (now : ℕ) (d : DaemonState) (name : String) (tab : SessionTab) (other : String)
    → let r = register_initialized_session_tab now d name tab in
      let owner = find_target_owner d tab.target_id in
      (is_registered r.1 ≡ (not (is_some owner) && contains_key name d.sessions))
      × (is_tracked r.1 ≡ is_text name owner)
      × (find_target_owner r.0 other ≡ (
          if is_registered r.1 && (tab.target_id == other)
          then some name
          else find_target_owner d other))
unfolding register_initialized_session_tab
register_initialized-owner now d name tab other =
    elim (Option-cases (find_owner tab.target_id d.sessions)) [
      | inr (o, f) ↦
          rw (f, register_initialized_session_tab, find_target_owner)
            (ground (arith, string_eq.beq_iff o name))
      | inl f ↦ elim (Option-cases (lookup name d.sessions)) [
        | inl e ↦ rw (f, register_initialized_session_tab, find_target_owner) (rw e (ground arith))
        | inr (s, e) ↦
            rw (f, register_initialized_session_tab, find_target_owner)
              (rw e (refl, refl, taken s e f))
      ]
    ]
  where
    taken :
        (s : Session)
        → lookup name d.sessions ≡ some s
        → find_owner tab.target_id d.sessions ≡ none
        → find_owner other (modify name (track_tab now tab) d.sessions)
          ≡ (if tab.target_id == other then some name else find_owner other d.sessions)
    taken s e f = elim (Bool-cases (tab.target_id == other)) [
      | inl hit ↦
          let same : tab.target_id ≡ other = (string_eq.beq_iff tab.target_id other).0 hit in
          rw hit (
            rw (← same) (
              find_owner-taken tab.target_id name (track_tab now tab) s d.sessions
                (ground (arith, has_tab-track_tab tab.target_id now tab s, beq_refl tab.target_id))
                e f))
      | inr miss ↦ rw miss (
          find_owner-modify other name (track_tab now tab) d.sessions
            (λ w. ground (arith, has_tab-track_tab other now tab w)))
    ]

-- An answer that is no registration changes nothing.
pub register_initialized_unchanged :
    (now : ℕ) (d : DaemonState) (name : String) (tab : SessionTab)
    → is_registered (register_initialized_session_tab now d name tab).1 ≡ false
    → (register_initialized_session_tab now d name tab).0 ≡ d
unfolding register_initialized_session_tab
register_initialized_unchanged now d name tab h = ground arith

removed-owner :
    (now : ℕ) (d : DaemonState) (t n other : String) (s : Session)
    → Inv d.sessions
    → find_owner t d.sessions ≡ some n
    → lookup n d.sessions ≡ some s
    → contains_key t s.tabs ≡ true
    → find_owner other (modify n (λ w. touch now (without_tab t w)) d.sessions)
      ≡ (if t == other then none else find_owner other d.sessions)
removed-owner now d t n other s v e found has = elim (Bool-cases (t == other)) [
  | inl hit ↦
      let same : t ≡ other = (string_eq.beq_iff t other).0 hit in
      rw hit (
        rw (← same) (
          find_owner-of_owners t _ (
            ground (
              arith,
              total-modify (has_tab t) n (λ w. touch now (without_tab t w)) s d.sessions found,
              has_tab-without_tab t now t s,
              beq_refl t,
              v.single t,
            ))))
  | inr miss ↦ rw miss (
      find_owner-modify other n _ d.sessions
        (λ w. ground (arith, has_tab-without_tab other now t w)))
]

remove-none :
    (now : ℕ) (d : DaemonState) (t : String)
    → find_owner t d.sessions ≡ none
    → remove_session_tab now d t ≡ (d, none)
unfolding remove_session_tab
remove-none now d t e = rw (e, remove_session_tab, find_target_owner) refl

remove-some :
    (now : ℕ) (d : DaemonState) (t n : String) (s : Session) (tab : SessionTab)
    → find_owner t d.sessions ≡ some n
    → lookup n d.sessions ≡ some s
    → lookup t s.tabs ≡ some tab
    → remove_session_tab now d t
      ≡ (after_removal n t (with_session n (λ w. touch now (without_tab t w)) d), some (n, tab))
unfolding remove_session_tab
remove-some now d t n s tab e found here =
    rw (e, remove_session_tab, find_target_owner) (rw found (rw here refl))

after_removal_lem :
    (n t : String) (d : DaemonState)
    → ((after_removal n t d).sessions ≡ d.sessions)
      × ((after_removal n t d).target_events ≡ d.target_events ++ destroyed n t ∷ [])
unfolding after_removal
after_removal_lem n t d = ground arith

-- Where the invariant of the sessions holds, a removal answers the owner, and after it the target has no owner, while every other target has
-- the one that it had. One event is sent, which names the owner, and none if there was no owner.
pub remove_session_tab-owner :
    (now : ℕ) (d : DaemonState) (t other : String)
    → Inv d.sessions
    → let r = remove_session_tab now d t in
      let owner = find_target_owner d t in
      (Option.map (λ p. p.0) r.1 ≡ owner)
      × (find_target_owner r.0 other ≡ (if t == other then none else find_target_owner d other))
      × (r.0.target_events
          ≡ d.target_events ++ (elim owner [ none ↦ [] | some n ↦ destroyed n t ∷ [] ]))
unfolding find_target_owner
remove_session_tab-owner now d t other v = elim (Option-cases (find_owner t d.sessions)) [
  | inl e ↦
      rw (remove-none now d t e)
        (rw e (refl, ground (arith, string_eq.beq_iff t other), sym (append-nil d.target_events)))
  | inr (n, e) ↦
      let (s, found, has) = find_owner-contains t n d.sessions v.names e in
      let (tab, here) = is_some-value (lookup t s.tabs) has in
      let after = with_session n (λ w. touch now (without_tab t w)) d in
      let (kept, sent) = after_removal_lem n t after in
      rw (remove-some now d t n s tab e found here)
        (rw kept (rw e (refl, removed-owner now d t n other s v e found has, sent)))
]
