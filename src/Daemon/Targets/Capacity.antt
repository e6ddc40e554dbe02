-- ===== src/Daemon/Targets/Capacity.antt =====
-- The limit on the tabs of a session in src/daemon/target_lifecycle.rs: a tab is reserved before its
-- target is opened, and the reservation is used up by the registration or released.
use browserkit.Common.{
  ℕ, ◌+◌, ◌≤◌, ◌<◌, ◌≡◌, true, Option, none, some, String, arith, length, u64_max, Option-cases,
  inl, inr, string_eq, Bool-cases,
}
use browserkit.Common.Assoc.{
  Assoc, lookup, modify, length-insert, length-remove-le, AllValues, AllValues-modify,
  AllValues-modify_at, AllValues-lookup,
}
use browserkit.Daemon.Session.{Session, SessionTab, can_add_tab, touch, without_tab}
use browserkit.Daemon.State.{DaemonState}
use browserkit.Daemon.Targets.{
  find_owner, find_target_owner, add_reservation, drop_reservation, track_tab, reserve_session_tab,
  release_session_tab_reservation, register_reserved_session_tab, remove_session_tab,
}
use browserkit.Daemon.Targets.Registration.{removed-sessions}

abbrev pub load : Session → ℕ
load s = length s.tabs + s.pending_tab_reservations

abbrev pub InLimit : ℕ → DaemonState → Type 0
InLimit max d = AllValues (λ s. load s ≤ max) d.sessions

load-add_reservation :
    (max : ℕ) (s : Session)
    → 0 < max
    → max ≤ u64_max
    → can_add_tab max s ≡ true
    → load (add_reservation s) ≤ max
unfolding add_reservation can_add_tab
load-add_reservation max s p h c = ground arith

load-drop_reservation : (s : Session) → load (drop_reservation s) ≤ load s
unfolding drop_reservation
load-drop_reservation s = omega arith

load-track_tab :
    (now : ℕ) (tab : SessionTab) (s : Session)
    → 0 < s.pending_tab_reservations
    → load (track_tab now tab (drop_reservation s)) ≤ load s
unfolding track_tab drop_reservation
load-track_tab now tab s p = ground (arith, length-insert tab.target_id tab s.tabs)

load-without_tab :
    (now : ℕ) (t : String) (s : Session) → load (touch now (without_tab t s)) ≤ load s
unfolding touch
load-without_tab now t s = omega (arith, length-remove-le t s.tabs)

shrink-InLimit :
    (max : ℕ) (n : String) (f : Session → Session) (m : Assoc String Session)
    → ((s : Session) → load (f s) ≤ load s)
    → AllValues (λ s. load s ≤ max) m
    → AllValues (λ s. load s ≤ max) (modify n f m)
shrink-InLimit max n f m h a = AllValues-modify _ n f m (λ s le. omega (arith, h s)) a

-- An operation of a handler that opens, attaches or closes a tab. A registration comes after a
-- reservation of the same session that is still held.
pub data Op (max : ℕ) (d : DaemonState) : Type 0 where
  reserves : (name : String) → Op max d
  releases : (name : String) → Op max d
  registers :
      (name : String) (tab : SessionTab) (s : Session)
      → lookup name d.sessions ≡ some s
      → 0 < s.pending_tab_reservations
      → Op max d
  removes : (target_id : String) → Op max d

pub step : (now max : ℕ) (d : DaemonState) → Op max d → DaemonState
step now max d (reserves name) = (reserve_session_tab d name max).0
step now max d (releases name) = release_session_tab_reservation d name
step now max d (registers name tab s h p) = (register_reserved_session_tab now d name tab).0
step now max d (removes target_id) = (remove_session_tab now d target_id).0

reserve-InLimit :
    (d : DaemonState) (name : String) (max : ℕ)
    → 0 < max
    → max ≤ u64_max
    → InLimit max d
    → InLimit max (reserve_session_tab d name max).0
unfolding reserve_session_tab
reserve-InLimit d name max p h v = elim (Option-cases (lookup name d.sessions)) [
  | inl e ↦ rw (e, reserve_session_tab) v
  | inr (s, e) ↦ elim (Bool-cases (can_add_tab max s)) [
    | inl f ↦
        rw (e, reserve_session_tab)
          (rw f (
            AllValues-modify_at _ name add_reservation s d.sessions e
              (load-add_reservation max s p h f) v))
    | inr f ↦ rw (e, reserve_session_tab) (rw f v)
  ]
]

register-InLimit :
    (now : ℕ) (d : DaemonState) (name : String) (tab : SessionTab) (max : ℕ) (s : Session)
    → lookup name d.sessions ≡ some s
    → 0 < s.pending_tab_reservations
    → InLimit max d
    → InLimit max (register_reserved_session_tab now d name tab).0
unfolding register_reserved_session_tab
register-InLimit now d name tab max s e p v =
    elim (Option-cases (find_owner tab.target_id d.sessions)) [
      | inr (o, f) ↦
          rw (e, register_reserved_session_tab)
            (rw (f, find_target_owner)
              (shrink-InLimit max name drop_reservation d.sessions load-drop_reservation v))
      | inl f ↦
          rw (e, register_reserved_session_tab)
            (rw (f, find_target_owner)
              (AllValues-modify_at _ name _ s d.sessions e
                (omega (
                  arith,
                  load-track_tab now tab s p,
                  AllValues-lookup (λ (w : Session). load w ≤ max) name s d.sessions v e,
                ))
                v))
    ]

remove-InLimit :
    (now : ℕ) (d : DaemonState) (t : String) (max : ℕ)
    → InLimit max d
    → InLimit max (remove_session_tab now d t).0
remove-InLimit now d t max v = rw (removed-sessions now d t) (go (remove_session_tab now d t).1)
  where
    go :
        (o : Option (String × SessionTab))
        → AllValues
            (λ s. load s ≤ max)
            (elim o [
              | none ↦ d.sessions
              | some (n, tab) ↦ modify n (λ w. touch now (without_tab t w)) d.sessions
            ])
    go none = v
    go (some (n, tab)) = shrink-InLimit max n _ d.sessions (load-without_tab now t) v

-- Under a limit that is not 0 (0 is no limit) and fits a `usize`: if every session's tabs and
-- reservations together are within the limit, they are so after a reservation of any session, its
-- release, the registration of a tab for a reservation that is held, and the removal of a tab.
pub step-InLimit :
    (now max : ℕ) (d : DaemonState) (op : Op max d)
    → 0 < max
    → max ≤ u64_max
    → InLimit max d
    → InLimit max (step now max d op)
unfolding step
step-InLimit now max d (reserves name) p h v = reserve-InLimit d name max p h v
step-InLimit now max d (releases name) p h v =
    unfold release_session_tab_reservation in
    shrink-InLimit max name drop_reservation d.sessions load-drop_reservation v
step-InLimit now max d (registers name tab s e q) p h v =
    register-InLimit now d name tab max s e q v
step-InLimit now max d (removes t) p h v = remove-InLimit now d t max v
