-- ===== src/Lifecycle/Pending/Tasks.antt =====
-- The registry of src/runtime/lifecycle.rs under every interleaving of its methods and of the tasks
-- that run a claimed cleanup.
use browserkit.Common.{
  ℕ, ◌+◌, ◌<◌, ◌≤◌, ◌≡◌, refl, Option, none, some, List, [], ◌∷◌, String, arith, eqb, u64_max,
  string_eq, ◌++◌, ap,
}
use browserkit.Common.Assoc.{total-insert-le}
use browserkit.Lifecycle.Pending.{
  pending, Outcome, Registry, new, register, claim, claim_next, finish, restore_claim, disarm,
  forget_completion,
}
use browserkit.Lifecycle.Pending.Cleanup.{abandon_all}
use browserkit.Lifecycle.Pending.Tokens.{
  waiting, handed, handed_next, one_if, waiting-claim, waiting-claim_first, waiting-finish,
  waiting-disarm, waiting-restore_claim, entry_holds,
}

-- A task that has claimed a cleanup: `ManagedPendingCleanup`.
pub record Job (C : Type 0) : Type 0 where
  pub resource : String
  pub token : ℕ
  pub cleanup : C

module _ {C : Type 0} where
  pub running : ℕ → List (Job C) → ℕ
  running t [] = 0
  running t (j ∷ js) = one_if (eqb j.token t) + running t js

-- The registry, and the tasks that run a claimed cleanup.
pub record World (C : Type 0) : Type 0 where
  pub registry : Registry C
  pub jobs : List (Job C)

abbrev pub grab : {C : Type 0} → String → ℕ → Option C → List (Job C) → List (Job C)
grab k token none js = js
grab k token (some c) js = record { resource = k; token = token; cleanup = c } ∷ js

abbrev pub grab_next : {C : Type 0} → Option (String × ℕ × C) → List (Job C) → List (Job C)
grab_next none js = js
grab_next (some (k, token, c)) js = record { resource = k; token = token; cleanup = c } ∷ js

abbrev pub begin : {C : Type 0} → World C
begin = record { registry = new; jobs = [] }

-- One step of some task: a method of the registry, the take of the completions at the end of
-- `cleanup_all`, or a claimed cleanup that ends, is put back, or is lost with its task. Fewer than
-- 2 ^ 64 - 1 registrations are made.
pub data Step {C : Type 0} (w : World C) (v : World C) : Type 0 where
  registers :
      (k : String) (c : C)
      → w.registry.next_token < u64_max
      → v ≡ record w { registry = (register k c w.registry).0 }
      → Step w v
  claims :
      (k : String) (token : ℕ)
      → v ≡ record {
        registry = (claim k token w.registry).0;
        jobs = grab k token (claim k token w.registry).1 w.jobs;
      }
      → Step w v
  claims_next :
      v ≡ record {
        registry = (claim_next w.registry).0;
        jobs = grab_next (claim_next w.registry).1 w.jobs;
      }
      → Step w v
  finishes :
      (xs ys : List (Job C)) (j : Job C) (result : Outcome)
      → w.jobs ≡ xs ++ (j ∷ ys)
      → v ≡ record { registry = finish j.resource j.token result w.registry; jobs = xs ++ ys }
      → Step w v
  restores :
      (xs ys : List (Job C)) (j : Job C)
      → w.jobs ≡ xs ++ (j ∷ ys)
      → v ≡ record {
        registry = restore_claim j.resource j.token j.cleanup w.registry;
        jobs = xs ++ ys;
      }
      → Step w v
  disarms :
      (k : String) (token : ℕ) → v ≡ record w { registry = disarm k token w.registry } → Step w v
  forgets :
      (k : String) (token : ℕ)
      → v ≡ record w { registry = forget_completion k token w.registry }
      → Step w v
  abandons : v ≡ record w { registry = (abandon_all w.registry).0 } → Step w v
  takes : v ≡ record w { registry = record w.registry { completed = [] } } → Step w v
  loses :
      (xs ys : List (Job C)) (j : Job C)
      → w.jobs ≡ xs ++ (j ∷ ys)
      → v ≡ record w { jobs = xs ++ ys }
      → Step w v

pub data Reach {C : Type 0} (w : World C) : World C → Type 0 where
  here : Reach w w
  next : {u v : World C} → Reach w u → Step u v → Reach w v

-- In how many places a cleanup of the token is.
abbrev pub places : {C : Type 0} → ℕ → World C → ℕ
places t w = waiting t w.registry.entries + running t w.jobs

abbrev Once : {C : Type 0} → ℕ → World C → Type 0
Once t w = (places t w ≤ 1) × (w.registry.next_token ≤ t → places t w ≡ 0)

module _ {C : Type 0} where
  running-append :
      (t : ℕ) (xs ys : List (Job C)) → running t (xs ++ ys) ≡ running t xs + running t ys
  unfolding running
  running-append t [] ys = omega arith
  running-append t (x ∷ xs) ys = omega (arith, running-append t xs ys)

  running-grab :
      (t : ℕ) (k : String) (token : ℕ) (o : Option C) (js : List (Job C))
      → running t (grab k token o js) ≡ handed t token o + running t js
  unfolding running
  running-grab t k token none js = omega arith
  running-grab t k token (some c) js = refl

  running-grab_next :
      (t : ℕ) (o : Option (String × ℕ × C)) (js : List (Job C))
      → running t (grab_next o js) ≡ handed_next t o + running t js
  unfolding running
  running-grab_next t none js = omega arith
  running-grab_next t (some (k, token, c)) js = refl

  running-middle :
      (t : ℕ) (xs ys : List (Job C)) (j : Job C)
      → running t (xs ++ (j ∷ ys)) ≡ one_if (eqb j.token t) + running t (xs ++ ys)
  unfolding running
  running-middle t xs ys j = omega (arith, running-append t xs (j ∷ ys), running-append t xs ys)

  next_token-claim :
      (k : String) (token : ℕ) (r : Registry C) → (claim k token r).0.next_token ≡ r.next_token
  unfolding claim
  next_token-claim k token r = ground arith

  next_token-finish :
      (k : String) (token : ℕ) (o : Outcome) (r : Registry C)
      → (finish k token o r).next_token ≡ r.next_token
  unfolding finish
  next_token-finish k token o r = ground arith

  next_token-restore_claim :
      (k : String) (token : ℕ) (c : C) (r : Registry C)
      → (restore_claim k token c r).next_token ≡ r.next_token
  unfolding restore_claim
  next_token-restore_claim k token c r = ground arith

  next_token-disarm :
      (k : String) (token : ℕ) (r : Registry C) → (disarm k token r).next_token ≡ r.next_token
  unfolding disarm
  next_token-disarm k token r = ground arith

  waiting-register :
      (t : ℕ) (k : String) (c : C) (r : Registry C)
      → waiting t (register k c r).0.entries ≤ waiting t r.entries + one_if (eqb r.next_token t)
  unfolding register
  waiting-register t k c r = omega (
    arith,
    total-insert-le (entry_holds t) k
        (record { token = r.next_token; state = pending; cleanup = some c }) r.entries,
  )

  next_token-register :
      (k : String) (c : C) (r : Registry C)
      → r.next_token < u64_max
      → (register k c r).0.next_token ≡ r.next_token + 1
  unfolding register
  next_token-register k c r h = omega arith

begin-Once : (C : Type 0) (t : ℕ) → Once t (begin {C = C})
unfolding new running
begin-Once C t = omega arith

module _ {C : Type 0} (t : ℕ) where
  Step-Once : {w v : World C} → Step w v → Once t w → Once t v
  Step-Once {w} (registers k c h q) o =
      rw q (ground (arith, waiting-register t k c w.registry, next_token-register k c w.registry h))
  Step-Once {w} (claims k token q) o = rw q (
      omega (
        arith,
        waiting-claim t k token w.registry,
        next_token-claim k token w.registry,
        running-grab t k token (claim k token w.registry).1 w.jobs,
      ))
  Step-Once {w} (claims_next q) o = rw q (
      unfold claim_next in
      omega (
        arith,
        waiting-claim_first t w.registry.entries,
        running-grab_next t (claim_next w.registry).1 w.jobs,
      ))
  Step-Once {w} (finishes xs ys j result e q) o = rw q (
      omega (
        arith,
        waiting-finish t j.resource j.token result w.registry,
        next_token-finish j.resource j.token result w.registry,
        running-middle t xs ys j,
        ap (running t) e,
      ))
  Step-Once {w} (restores xs ys j e q) o = rw q (
      omega (
        arith,
        waiting-restore_claim t j.resource j.token j.cleanup w.registry,
        next_token-restore_claim j.resource j.token j.cleanup w.registry,
        running-middle t xs ys j,
        ap (running t) e,
      ))
  Step-Once {w} (disarms k token q) o =
      rw q
        (omega (arith, waiting-disarm t k token w.registry, next_token-disarm k token w.registry))
  Step-Once {w} (forgets k token q) o = rw q (unfold forget_completion in o)
  Step-Once {w} (abandons q) o = rw q (unfold abandon_all in omega arith)
  Step-Once {w} (takes q) o = rw q o
  Step-Once {w} (loses xs ys j e q) o =
      rw q (omega (arith, running-middle t xs ys j, ap (running t) e))

  Reach-Once : {w v : World C} → Reach w v → Once t w → Once t v
  Reach-Once here o = o
  Reach-Once (next r p) o = Step-Once p (Reach-Once r o)

  -- From an empty registry on, after any interleaving of the methods that change it (to register, to
  -- claim one cleanup or the next, to finish one, to put it back, to disarm, to forget a completion, to
  -- abandon all, to take the completions) and of tasks that are lost with the cleanup they have claimed,
  -- as long as fewer than 2 ^ 64 - 1 registrations are made: the cleanup of a token is in at most one
  -- place, in one entry of the registry or with one task that runs it.
  pub Reach-places : {w : World C} → Reach begin w → places t w ≤ 1
  Reach-places r = (Reach-Once r (begin-Once C t)).0
