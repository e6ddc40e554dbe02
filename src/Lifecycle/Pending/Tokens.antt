-- ===== src/Lifecycle/Pending/Tokens.antt =====
-- How many entries of the registry of src/runtime/lifecycle.rs hold a cleanup of a token, and what
-- each method does to that number.
use browserkit.Common.{
  ℕ, ◌+◌, ◌≤◌, ◌≡◌, Bool, true, false, Option, none, some, [], ◌∷◌, String, arith, eqb,
  if◌then◌else◌, Option-cases, string_eq, inl, inr,
}
use browserkit.Common.Assoc.{total, total-modify, total-remove-le, Assoc, lookup}
use browserkit.Lifecycle.Pending.{
  pending, Outcome, Entry, Registry, claim, claim_first, claim_next, claimed, finish, restore_claim,
  disarm,
}

abbrev pub one_if : Bool → ℕ
one_if true = 1
one_if false = 0

module _ {C : Type 0} where
  abbrev pub has_cleanup : Option C → Bool
  has_cleanup none = false
  has_cleanup (some c) = true

  -- How many entries hold a cleanup of the token, and how many tasks.
  abbrev pub entry_holds : ℕ → Entry C → ℕ
  entry_holds t e = if has_cleanup e.cleanup then one_if (eqb e.token t) else 0

  abbrev pub waiting : ℕ → Assoc String (Entry C) → ℕ
  waiting t = total (entry_holds t)

  -- What a claim takes out of the registry it hands to the caller.
  abbrev pub handed : ℕ → ℕ → Option C → ℕ
  handed t token none = 0
  handed t token (some c) = one_if (eqb token t)

  pub waiting-claim :
      (t : ℕ) (k : String) (token : ℕ) (r : Registry C)
      → waiting t (claim k token r).0.entries + handed t token (claim k token r).1
        ≡ waiting t r.entries
  unfolding claim
  waiting-claim t k token r = elim (Option-cases (lookup k r.entries)) [
    | inl e ↦ ground arith
    | inr (d, e) ↦ ground (arith, total-modify (entry_holds t) k claimed d r.entries e)
  ]

  abbrev pub handed_next : ℕ → Option (String × ℕ × C) → ℕ
  handed_next t none = 0
  handed_next t (some (k, token, c)) = one_if (eqb token t)

  pub waiting-claim_first :
      (t : ℕ) (m : Assoc String (Entry C))
      → waiting t (claim_first m).0 + handed_next t (claim_first m).1 ≡ waiting t m
  unfolding claim_first
  waiting-claim_first t [] = omega arith
  waiting-claim_first t ((k, e) ∷ m) = ground (arith, waiting-claim_first t m)

  -- A claim takes a cleanup out of the registry exactly if it hands it to the caller, under its own
  -- token: for every token, the cleanups that wait and the one handed over are as many as before.
  -- This holds of `claim` and of `claim_next`.
  pub claim-hands_over :
      (t : ℕ) (k : String) (token : ℕ) (r : Registry C)
      → (waiting t (claim k token r).0.entries + handed t token (claim k token r).1
          ≡ waiting t r.entries)
        × (waiting t (claim_next r).0.entries + handed_next t (claim_next r).1
            ≡ waiting t r.entries)
  unfolding claim_next
  claim-hands_over t k token r = (waiting-claim t k token r, waiting-claim_first t r.entries)

  pub waiting-finish :
      (t : ℕ) (k : String) (token : ℕ) (result : Outcome) (r : Registry C)
      → waiting t (finish k token result r).entries ≤ waiting t r.entries
  unfolding finish
  waiting-finish t k token result r = ground (arith, total-remove-le (entry_holds t) k r.entries)

  pub waiting-disarm :
      (t : ℕ) (k : String) (token : ℕ) (r : Registry C)
      → waiting t (disarm k token r).entries ≤ waiting t r.entries
  unfolding disarm
  waiting-disarm t k token r = ground (arith, total-remove-le (entry_holds t) k r.entries)

  pub waiting-restore_claim :
      (t : ℕ) (k : String) (token : ℕ) (c : C) (r : Registry C)
      → waiting t (restore_claim k token c r).entries ≤ waiting t r.entries + one_if (eqb token t)
  unfolding restore_claim
  waiting-restore_claim t k token c r = elim (Option-cases (lookup k r.entries)) [
    | inl e ↦ ground arith
    | inr (d, e) ↦ ground (
      arith,
      total-modify (entry_holds t) k (λ d. record d { state = pending; cleanup = some c }) d
          r.entries e,
    )
  ]
