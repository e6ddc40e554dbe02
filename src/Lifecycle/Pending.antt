-- ===== src/Lifecycle/Pending.antt =====
-- `PendingOwnershipRegistry` of src/runtime/lifecycle.rs: resources whose remote cleanup is owed.
-- `C` is the type of the boxed cleanup, which belongs to the callers. Every method holds the mutex
-- for its whole body. The counter of tokens is an atomic that wraps.
pub mod Errors
pub mod Tokens
pub mod Tasks
pub mod Cleanup
pub mod Wakeups
use browserkit.Common.{
  ℕ, ◌+◌, ◌%◌, ◌^◌, ◌≡◌, Bool, true, false, not, ◌&&◌, ◌||◌, Option, none, some, List, [], ◌∷◌,
  ◌++◌, String, eqb, if◌then◌else◌, length, keep, ◌==◌, string_eq,
}
use browserkit.Common.Assoc.{Assoc, lookup, insert, remove, modify}
use Errors.{OwnershipCleanupError}

pub data PendingOwnershipState : Type 0 where
  pending cleaning : PendingOwnershipState

abbrev pub is_pending : PendingOwnershipState → Bool
is_pending pending = true
is_pending cleaning = false

-- `none` is `Ok(())`.
abbrev pub Outcome : Type 0
Outcome = Option OwnershipCleanupError

pub record Entry (C : Type 0) : Type 0 where
  pub token : ℕ
  pub state : PendingOwnershipState
  pub cleanup : Option C

pub record Completion : Type 0 where
  pub resource : String
  pub token : ℕ
  pub result : Outcome

pub record Registry (C : Type 0) : Type 0 where
  pub next_token : ℕ
  pub entries : Assoc String (Entry C)
  pub completed : List Completion

module _ {C : Type 0} where
  unfoldable pub new : Registry C
  new = record { next_token = 1; entries = []; completed = [] }

  -- The new entry takes the place of an old one of the same name. The token goes to the guard.
  pub register : String → C → Registry C → Registry C × ℕ
  register resource cleanup r = (
    record r {
      next_token = (r.next_token + 1) % 2 ^ 64;
      entries =
          insert resource (record { token = r.next_token; state = pending; cleanup = some cleanup })
            r.entries;
    },
    r.next_token,
  )

  pub pending_count : Registry C → ℕ
  pending_count r = length r.entries

  -- The entry without its cleanup, which the claimer takes away.
  abbrev pub claimed : Entry C → Entry C
  claimed e = record { token = e.token; state = cleaning; cleanup = none }

  pub claim : String → ℕ → Registry C → Registry C × Option C
  claim resource token r = elim (lookup resource r.entries) [
    | none ↦ (r, none)
    | some e ↦
        if not (eqb e.token token) || not (is_pending e.state)
        then (r, none)
        else (record r { entries = modify resource claimed r.entries }, e.cleanup)
  ]

  -- The loop of `claim_next` over the entries.
  pub claim_first : Assoc String (Entry C) → Assoc String (Entry C) × Option (String × ℕ × C)
  claim_first [] = ([], none)
  claim_first ((k, e) ∷ m) =
      let (rest, found) = claim_first m in
      if is_pending e.state
      then elim e.cleanup [
        | none ↦ ((k, claimed e) ∷ rest, found)
        | some c ↦ ((k, claimed e) ∷ m, some (k, e.token, c))
      ]
      else ((k, e) ∷ rest, found)

  pub claim_next : Registry C → Registry C × Option (String × ℕ × C)
  unfolding claim_first
  claim_next r =
      let (entries, found) = claim_first r.entries in (record r { entries = entries }, found)

  -- Whether the entry of a resource is the one that the token was given for.
  unfoldable pub holds : String → ℕ → Registry C → Bool
  holds resource token r = elim (lookup resource r.entries) [
    | none ↦ false
    | some e ↦ eqb e.token token
  ]

  pub finish : String → ℕ → Outcome → Registry C → Registry C
  unfolding holds
  finish resource token result r =
      if holds resource token r
      then record r {
        entries = remove resource r.entries;
        completed =
            r.completed ++ record { resource = resource; token = token; result = result } ∷ [];
      }
      else r

  -- A claimed cleanup that could not be run is put back.
  pub restore_claim : String → ℕ → C → Registry C → Registry C
  restore_claim resource token cleanup r = elim (lookup resource r.entries) [
    | none ↦ r
    | some e ↦
        if eqb e.token token && not (is_pending e.state)
        then record r {
          entries =
              modify resource (λ e. record e { state = pending; cleanup = some cleanup }) r.entries;
        }
        else r
  ]

  pub disarm : String → ℕ → Registry C → Registry C
  unfolding holds
  disarm resource token r =
      if holds resource token r then record r { entries = remove resource r.entries } else r

  pub forget_completion : String → ℕ → Registry C → Registry C
  forget_completion resource token r = record r {
    completed = keep (λ c. not (c.resource == resource) || not (eqb c.token token)) r.completed;
  }
