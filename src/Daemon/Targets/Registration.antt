-- ===== src/Daemon/Targets/Registration.antt =====
-- Every operation of src/daemon/target_lifecycle.rs on the sessions keeps each target with one
-- session at most.
use browserkit.Common.{
  ℕ, ◌≡◌, Bool, true, false, Option, none, some, String, arith, if◌then◌else◌, ◌==◌, string_eq,
  Bool-cases, Option-cases, inl, inr,
}
use browserkit.Common.Assoc.{Assoc, lookup, modify, total-modify, le-total}
use browserkit.Daemon.Session.{Session, SessionTab, touch, without_tab, can_add_tab}
use browserkit.Daemon.State.{DaemonState}
use browserkit.Daemon.Targets.{
  find_owner, find_target_owner, add_reservation, drop_reservation, track_tab, retitle,
  reserve_session_tab, release_session_tab_reservation, register_reserved_session_tab,
  register_initialized_session_tab, register_session_tab, remove_session_tab,
  update_session_tab_info, emit_session_tab_created, after_removal,
}
use browserkit.Daemon.Targets.Owner.{
  Inv, TabsValid, has_tab, find_owner-none, modify-Inv, shrink-Inv, add_reservation-TabsValid,
  drop_reservation-TabsValid, track_tab-TabsValid, has_tab-track_tab, without_tab-TabsValid,
  has_tab-without_tab, retitle-TabsValid, has_tab-retitle,
}

-- A change after which a session holds one target that had no owner, and no other new one.
track-Inv :
    (n : String) (f : Session → Session) (id : String) (m : Assoc String Session)
    (session : Session)
    → ((s : Session) → TabsValid s → TabsValid (f s))
    → ((t : String) (s : Session) → has_tab t (f s) ≡ (if id == t then 1 else has_tab t s))
    → lookup n m ≡ some session
    → find_owner id m ≡ none
    → Inv m
    → Inv (modify n f m)
track-Inv n f id m session keep adds found free v =
    modify-Inv n f m keep
      (λ t. ground (
        arith,
        total-modify (has_tab t) n f session m found,
        adds t session,
        find_owner-none id m free,
        le-total (has_tab t) n session m found,
        string_eq.beq_iff id t,
        v.single t,
      ))
      v

reserve-Inv :
    (d : DaemonState) (name : String) (max : ℕ)
    → Inv d.sessions
    → Inv (reserve_session_tab d name max).0.sessions
unfolding reserve_session_tab
reserve-Inv d name max v = elim (Option-cases (lookup name d.sessions)) [
  | inl e ↦ rw (e, reserve_session_tab) v
  | inr (s, e) ↦ elim (Bool-cases (can_add_tab max s)) [
    | inl f ↦
        rw (e, reserve_session_tab)
          (rw f (
            shrink-Inv name add_reservation d.sessions add_reservation-TabsValid
              (λ t s. unfold add_reservation in omega arith) v))
    | inr f ↦ rw (e, reserve_session_tab) (rw f v)
  ]
]

release-Inv :
    (d : DaemonState) (name : String)
    → Inv d.sessions
    → Inv (release_session_tab_reservation d name).sessions
unfolding release_session_tab_reservation
release-Inv d name v =
    shrink-Inv name drop_reservation d.sessions drop_reservation-TabsValid (λ t s. omega arith) v

register_reserved-Inv :
    (now : ℕ) (d : DaemonState) (name : String) (tab : SessionTab)
    → Inv d.sessions
    → Inv (register_reserved_session_tab now d name tab).0.sessions
unfolding register_reserved_session_tab release_session_tab_reservation
register_reserved-Inv now d name tab v = elim (Option-cases (lookup name d.sessions)) [
  | inl e ↦ rw (e, register_reserved_session_tab) v
  | inr (s, e) ↦ elim (Option-cases (find_owner tab.target_id d.sessions)) [
    | inr (o, f) ↦
        rw (e, register_reserved_session_tab) (rw (f, find_target_owner) (release-Inv d name v))
    | inl f ↦
        rw (e, register_reserved_session_tab)
          (rw (f, find_target_owner)
            (track-Inv name (λ w. track_tab now tab (drop_reservation w)) tab.target_id d.sessions s
              (λ w h. track_tab-TabsValid now tab _ (drop_reservation-TabsValid w h))
              (λ t w. has_tab-track_tab t now tab (drop_reservation w)) e f v))
  ]
]

pub register_initialized-Inv :
    (now : ℕ) (d : DaemonState) (name : String) (tab : SessionTab)
    → Inv d.sessions
    → Inv (register_initialized_session_tab now d name tab).0.sessions
unfolding register_initialized_session_tab
register_initialized-Inv now d name tab v =
    elim (Option-cases (find_owner tab.target_id d.sessions)) [
      | inr (o, f) ↦ rw (f, register_initialized_session_tab, find_target_owner) v
      | inl f ↦ elim (Option-cases (lookup name d.sessions)) [
        | inl e ↦ rw (f, register_initialized_session_tab, find_target_owner) (rw e v)
        | inr (s, e) ↦
            rw (f, register_initialized_session_tab, find_target_owner)
              (rw e (
                track-Inv name (track_tab now tab) tab.target_id d.sessions s
                  (track_tab-TabsValid now tab) (λ t s. has_tab-track_tab t now tab s) e f v))
      ]
    ]

after_removal-sessions :
    (name t : String) (d : DaemonState) → (after_removal name t d).sessions ≡ d.sessions
unfolding after_removal
after_removal-sessions name t d = ground arith

-- The sessions after a removal: those of the one that the owner held, or all as before.
pub removed-sessions :
    (now : ℕ) (d : DaemonState) (t : String)
    → (remove_session_tab now d t).0.sessions ≡ elim (remove_session_tab now d t).1 [
      | none ↦ d.sessions
      | some (n, tab) ↦ modify n (λ w. touch now (without_tab t w)) d.sessions
    ]
unfolding remove_session_tab
removed-sessions now d t = ground arith

pub remove-Inv :
    (now : ℕ) (d : DaemonState) (t : String)
    → Inv d.sessions
    → Inv (remove_session_tab now d t).0.sessions
remove-Inv now d t v = rw (removed-sessions now d t) (go (remove_session_tab now d t).1)
  where
    go :
        (o : Option (String × SessionTab))
        → Inv (elim o [
          | none ↦ d.sessions
          | some (n, tab) ↦ modify n (λ w. touch now (without_tab t w)) d.sessions
        ])
    go none = v
    go (some (n, tab)) =
        shrink-Inv n _ d.sessions (without_tab-TabsValid now t)
          (λ u s. ground (arith, has_tab-without_tab u now t s)) v

abbrev retitled :
    ℕ
    → String
    → String
    → String
    → Assoc String Session
    → Bool
    → Option String
    → Assoc String Session
retitled now t url title m true (some n) = modify n (retitle now t url title) m
retitled now t url title m _ _ = m

updated-sessions :
    (now : ℕ) (d : DaemonState) (t url title : String)
    → (update_session_tab_info now d t url title).0.sessions
      ≡ retitled now t url title d.sessions
          (update_session_tab_info now d t url title).1
          (find_owner t d.sessions)
unfolding update_session_tab_info
updated-sessions now d t url title = ground arith

pub update-Inv :
    (now : ℕ) (d : DaemonState) (t url title : String)
    → Inv d.sessions
    → Inv (update_session_tab_info now d t url title).0.sessions
update-Inv now d t url title v =
    rw (updated-sessions now d t url title)
      (go (update_session_tab_info now d t url title).1 (find_owner t d.sessions))
  where
    go : (b : Bool) (o : Option String) → Inv (retitled now t url title d.sessions b o)
    go true (some n) =
        shrink-Inv n _ d.sessions (retitle-TabsValid now t url title)
          (λ u s. omega (arith, has_tab-retitle u now t url title s)) v
    go true none = v
    go false o = v

pub data Op : Type 0 where
  reserves : (name : String) (max : ℕ) → Op
  releases : (name : String) → Op
  registers_reserved : (name : String) (tab : SessionTab) → Op
  registers_initialized : (name : String) (tab : SessionTab) → Op
  registers : (name : String) (tab : SessionTab) → Op
  removes : (target_id : String) → Op
  updates : (target_id url title : String) → Op
  emits : (name target_id : String) (opener_id : Option String) → Op

pub step : ℕ → DaemonState → Op → DaemonState
step now d (reserves name max) = (reserve_session_tab d name max).0
step now d (releases name) = release_session_tab_reservation d name
step now d (registers_reserved name tab) = (register_reserved_session_tab now d name tab).0
step now d (registers_initialized name tab) = (register_initialized_session_tab now d name tab).0
step now d (registers name tab) = (register_session_tab now d name tab).0
step now d (removes target_id) = (remove_session_tab now d target_id).0
step now d (updates target_id url title) = (update_session_tab_info now d target_id url title).0
step now d (emits name target_id opener_id) = emit_session_tab_created d name target_id opener_id

-- The eight operations on sessions of the file, that is to reserve a tab and to release the reservation,
-- to register a reserved, an initialized or any other tab, to remove a tab, to update its URL and title,
-- and to tell that a tab was created, keep all of this: sessions have distinct names, a session names a tab once,
-- its active target is one of its tabs and is missing only if it has none, and no target is in two
-- sessions.
pub step-Inv : (now : ℕ) (d : DaemonState) (op : Op) → Inv d.sessions → Inv (step now d op).sessions
unfolding step
step-Inv now d (reserves name max) v = reserve-Inv d name max v
step-Inv now d (releases name) v = release-Inv d name v
step-Inv now d (registers_reserved name tab) v = register_reserved-Inv now d name tab v
step-Inv now d (registers_initialized name tab) v = register_initialized-Inv now d name tab v
step-Inv now d (registers name tab) v =
    unfold register_session_tab in register_initialized-Inv now d name tab v
step-Inv now d (removes target_id) v = remove-Inv now d target_id v
step-Inv now d (updates target_id url title) v = update-Inv now d target_id url title v
step-Inv now d (emits name target_id opener_id) v = unfold emit_session_tab_created in v
