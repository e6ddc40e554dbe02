-- ===== src/Daemon/State/Locks.antt =====
-- `SessionLifecycleLockRegistry` of src/daemon/state.rs: a lock for each session name, held weakly. A
-- lock is a number; which locks are alive at a call, and the new one that it may make, are arguments.
use browserkit.Common.{
  ℕ, ◌≡◌, Bool, true, none, some, List, [], ◌∷◌, String, arith, if◌then◌else◌, string_eq,
}
use browserkit.Common.Assoc.{Assoc, lookup, insert, lookup-insert}

abbrev pub Locks : Type 0
Locks = Assoc String ℕ

-- `retain` on the values.
pub retain : (ℕ → Bool) → Locks → Locks
retain alive [] = []
retain alive ((name, lock) ∷ locks) =
    let rest = retain alive locks in if alive lock then (name, lock) ∷ rest else rest

-- The lock that the registry holds for the name, if it is alive, or else the new one.
unfoldable pub lock_for : (ℕ → Bool) → ℕ → String → Locks → Locks × ℕ
unfolding retain
lock_for alive fresh name locks =
    let live = retain alive locks in
    elim (lookup name live) [
      | some lock ↦ if alive lock then (live, lock) else (insert name fresh live, fresh)
      | none ↦ (insert name fresh live, fresh)
    ]

-- A call: the locks that are alive then, the new lock, and the name.
pub record Call : Type 0 where
  pub alive : ℕ → Bool
  pub fresh : ℕ
  pub name : String

pub locks_after : List Call → Locks → Locks
unfolding lock_for
locks_after [] locks = locks
locks_after (c ∷ cs) locks = locks_after cs (lock_for c.alive c.fresh c.name locks).0

-- The lock is in use during each of the calls.
abbrev pub HeldDuring : ℕ → List Call → Type 0
HeldDuring lock [] = Unit
HeldDuring lock (c ∷ cs) = (c.alive lock ≡ true) × HeldDuring lock cs

lookup-retain :
    (alive : ℕ → Bool) (name : String) (lock : ℕ) (locks : Locks)
    → lookup name locks ≡ some lock
    → alive lock ≡ true
    → lookup name (retain alive locks) ≡ some lock
unfolding retain lookup
lookup-retain alive name lock [] h a = cc
lookup-retain alive name lock ((n, l) ∷ locks) h a =
    ground (arith, lookup-retain alive name lock locks)

lookup-lock_for :
    (alive : ℕ → Bool) (fresh : ℕ) (name other : String) (lock : ℕ) (locks : Locks)
    → lookup name locks ≡ some lock
    → alive lock ≡ true
    → lookup name (lock_for alive fresh other locks).0 ≡ some lock
unfolding lock_for
lookup-lock_for alive fresh name other lock locks h a = ground (
  arith,
  lookup-retain alive name lock locks,
  lookup-insert other name fresh (retain alive locks),
  string_eq.beq_iff other name,
)

lock_for-held :
    (alive : ℕ → Bool) (fresh : ℕ) (name : String) (lock : ℕ) (locks : Locks)
    → lookup name locks ≡ some lock
    → alive lock ≡ true
    → (lock_for alive fresh name locks).1 ≡ lock
unfolding lock_for
lock_for-held alive fresh name lock locks h a = ground (arith, lookup-retain alive name lock locks)

lock_for-entered :
    (alive : ℕ → Bool) (fresh : ℕ) (name : String) (locks : Locks)
    → let (after, lock) = lock_for alive fresh name locks in lookup name after ≡ some lock
unfolding lock_for
lock_for-entered alive fresh name locks =
    ground (arith, lookup-insert name name fresh (retain alive locks), string_eq.beq_iff name name)

lookup-locks_after :
    (cs : List Call) (name : String) (lock : ℕ) (locks : Locks)
    → lookup name locks ≡ some lock
    → HeldDuring lock cs
    → lookup name (locks_after cs locks) ≡ some lock
unfolding locks_after
lookup-locks_after [] name lock locks h a = h
lookup-locks_after (c ∷ cs) name lock locks h a =
    lookup-locks_after cs name lock (lock_for c.alive c.fresh c.name locks).0
      (lookup-lock_for c.alive c.fresh name c.name lock locks h a.0) a.1

-- While the lock that one call has given for a session is in use, every later call for that session
-- gives the same lock, whatever calls for whatever sessions come between.
pub lock_for-again :
    (first last : Call) (between : List Call) (locks : Locks)
    → last.name ≡ first.name
    → HeldDuring (lock_for first.alive first.fresh first.name locks).1 between
    → last.alive (lock_for first.alive first.fresh first.name locks).1 ≡ true
    → (lock_for last.alive last.fresh last.name
        (locks_after between (lock_for first.alive first.fresh first.name locks).0)).1
      ≡ (lock_for first.alive first.fresh first.name locks).1
lock_for-again first last between locks same held alive =
    let (after, lock) = lock_for first.alive first.fresh first.name locks in
    rw same (
      lock_for-held last.alive last.fresh first.name lock (locks_after between after)
        (lookup-locks_after between first.name lock after
          (lock_for-entered first.alive first.fresh first.name locks) held)
        alive)
