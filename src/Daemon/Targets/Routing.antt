-- ===== src/Daemon/Targets/Routing.antt =====
-- To which session src/daemon/target_lifecycle.rs gives a target that the browser has created.
use browserkit.Common.{
  ◌≡◌, refl, true, Option, none, some, List, [], ◌∷◌, String, arith, string_eq, Bool-cases,
  Option-cases, inl, inr, ap,
}
use browserkit.Common.Assoc.{Assoc, lookup, UniqueKeys}
use browserkit.Daemon.Session.{Session}
use browserkit.Daemon.State.{DaemonState}
use browserkit.Daemon.Targets.{
  find_target_owner, is_context, is_text, is_isolated, contexts, only, opener_session,
  context_session, session_for_created_target,
}

contexts-lookup :
    (host context n : String) (rest : List String) (m : Assoc String Session)
    → UniqueKeys m
    → contexts host context m ≡ n ∷ rest
    → (s : Session) × (lookup n m ≡ some s) × (is_context host context s ≡ true)
unfolding contexts lookup
contexts-lookup host context n rest [] u h = cc
contexts-lookup host context n rest ((k, s) ∷ m) u h =
    elim (Bool-cases (is_context host context s)) [
      | inl e ↦ (s, ground (arith, string_eq.beq_iff k n), e)
      | inr e ↦
          let (v, found, good) = contexts-lookup host context n rest m u.1 (rw e at h) in
          (v, ground (arith, string_eq.beq_iff k n), good)
    ]

-- Why a session was chosen: it owns the opener, or it is the only isolated one with the context.
pub data Reason (d : DaemonState) (host n : String) (s : Session) (opener context : Option String)
    : Type 0 where
  opened_by :
      (o : String)
      → opener ≡ some o
      → find_target_owner d o ≡ some n
      → Reason d host n s opener context
  only_context :
      (c : String)
      → context ≡ some c
      → is_isolated s.mode ≡ true
      → s.browser_context_id ≡ some c
      → contexts host c d.sessions ≡ n ∷ []
      → Reason d host n s opener context

only-inv : (l : List String) (n : String) → only l ≡ some n → l ≡ n ∷ []
only-inv [] n h = cc
only-inv (x ∷ []) n h = ground arith
only-inv (x ∷ y ∷ l) n h = cc

context-held : (c : String) (o : Option String) → is_text c o ≡ true → o ≡ some c
context-held c none h = cc
context-held c (some a) h = ap some ((string_eq.beq_iff a c).0 h)

opener-Reason :
    (d : DaemonState) (host n : String) (opener context : Option String)
    → opener_session d host opener ≡ some n
    → (s : Session) × (lookup n d.sessions ≡ some s)
      × (s.browser_host ≡ host)
      × Reason d host n s opener context
unfolding opener_session
opener-Reason d host n none context h = cc
opener-Reason d host n (some o) context h = elim (Option-cases (find_target_owner d o)) [
  | inl e ↦ absurd (ground arith)
  | inr (k, e) ↦ elim (Option-cases (lookup k d.sessions)) [
    | inl f ↦ absurd (ground arith)
    | inr (s, f) ↦
        let same : k ≡ n = ground arith in
        (
          s,
          rw (← same) f,
          ground (arith, string_eq.beq_iff s.browser_host host),
          opened_by o refl (rw e (ap some same)),
        )
  ]
]

context-Reason :
    (d : DaemonState) (host n : String) (opener context : Option String)
    → UniqueKeys d.sessions
    → context_session d host context ≡ some n
    → (s : Session) × (lookup n d.sessions ≡ some s)
      × (s.browser_host ≡ host)
      × Reason d host n s opener context
unfolding context_session
context-Reason d host n opener none u h = cc
context-Reason d host n opener (some c) u h =
    let one = only-inv _ n h in
    let (s, found, good) = contexts-lookup host c n [] d.sessions u one in
    (
      s,
      found,
      ground (arith, string_eq.beq_iff s.browser_host host),
      only_context c refl (ground arith) (context-held c s.browser_context_id (ground arith)) one,
    )

-- Where sessions have distinct names, the session that a created target is given to is one on the browser's host, and either it owns the
-- target's opener, or it is isolated, has the target's browser context, and is the only such session
-- on the host.
pub session_for_created_target-Reason :
    (d : DaemonState) (host n : String) (opener context : Option String)
    → UniqueKeys d.sessions
    → session_for_created_target d host opener context ≡ some n
    → (s : Session) × (lookup n d.sessions ≡ some s)
      × (s.browser_host ≡ host)
      × Reason d host n s opener context
unfolding session_for_created_target
session_for_created_target-Reason d host n opener context u h =
    elim (Option-cases (opener_session d host opener)) [
      | inl e ↦ context-Reason d host n opener context u (ground arith)
      | inr (k, e) ↦ opener-Reason d host n opener context (ground arith)
    ]
