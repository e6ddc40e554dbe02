-- ===== src/Lifecycle/Pending/Cleanup.antt =====
-- `cleanup_all`, `cleanup_one` and `abandon_all` of src/runtime/lifecycle.rs. `run` is what the
-- cleanup of a resource answers when it is awaited; it belongs to the callers.
use Prim.Native.Nat.{Ordering}
use Prim.Native.String.{compare}
use browserkit.Common.{
  is_some, not, Option-cases, inl, inr, ℕ, zero, suc, ◌+◌, ◌<◌, ◌≡◌, Bool, true, false, ◌&&◌,
  Option, none, some, List, [], ◌∷◌, ◌++◌, String, arith, Bool-cases, eqb, if◌then◌else◌, string_eq,
  ◌==◌, length, map, ap, ◌∙◌,
}
use mathlib.Core.List.{append_assoc, append-nil, Perm, map-append}
use mathlib.Core.List.Perm
use browserkit.Common.Assoc.{lookup-remove, Assoc, lookup, remove, UniqueKeys, remove_absent}
use browserkit.Lifecycle.Pending.{
  pending, Outcome, Entry, Completion, Registry, claim, pending_count, claim_next, claimed, holds,
  finish,
}

-- `sort_by` with `cmp` on the resources: stable, so an entry goes before its equals.
abbrev pub after : String → String → Bool
after a b = elim (compare a b) [ Ordering.gt ↦ true | _ ↦ false ]

abbrev pub Report : Type 0
Report = String × Outcome

pub sort_in : Report → List Report → List Report
sort_in r [] = r ∷ []
sort_in r (s ∷ rs) = if after r.0 s.0 then s ∷ sort_in r rs else r ∷ s ∷ rs

pub sort : List Report → List Report
sort [] = []
sort (r ∷ rs) = sort_in r (sort rs)

abbrev pub reports : List Completion → List Report
reports = map (λ c. (c.resource, c.result))

sort_in-perm : (r : Report) (rs : List Report) → Perm (sort_in r rs) (r ∷ rs)
unfolding sort_in
sort_in-perm r [] = Perm.refl _
sort_in-perm r (s ∷ rs) = elim (Bool-cases (after r.0 s.0)) [
  | inl e ↦ rw e (Perm.trans (Perm.cons s (sort_in-perm r rs)) (Perm.swap r s rs))
  | inr e ↦ rw e (Perm.refl _)
]

sort-perm : (rs : List Report) → Perm (sort rs) rs
unfolding sort
sort-perm [] = Perm.refl _
sort-perm (r ∷ rs) = Perm.trans (sort_in-perm r (sort rs)) (Perm.cons r (sort-perm rs))

-- How a call of `cleanup_all` ends: with the sorted reports; `spent` is the end of the model's fuel.
pub data CleanupAll (C : Type 0) : Type 0 where
  done : Registry C → List Report → CleanupAll C
  spent : CleanupAll C

-- The last completion of a token, if any; `unwrap_or(Ok(()))` if there is none.
abbrev pub last_result : String → ℕ → List Completion → Outcome → Outcome
last_result k token [] found = found
last_result k token (c ∷ cs) found =
    last_result k token cs (if c.resource == k && eqb c.token token then c.result else found)

module _ {C : Type 0} where
  unfoldable pub abandon_all : Registry C → Registry C × List Report
  unfolding sort
  abandon_all r = (record r { entries = []; completed = [] }, sort (reports r.completed))

  -- A call of `cleanup_one` in one round: it runs the cleanup, or answers what a task that is done
  -- has left, or waits (`none`). `meanwhile` is what other tasks do to the registry while the cleanup is
  -- awaited, or between the claim and the look at the entries.
  pub cleanup_one :
      (C → Outcome)
      → (Registry C → Registry C)
      → String
      → ℕ
      → Registry C
      → Registry C × Option Outcome
  unfolding claim holds finish
  cleanup_one run meanwhile k token r =
      let (r', taken) = claim k token r in
      elim taken [
        | some c ↦ (finish k token (run c) (meanwhile r'), some (run c))
        | none ↦
            let between = meanwhile r' in
            if holds k token between
            then (between, none)
            else (between, some (last_result k token between.completed none))
      ]

  -- The last lock of `cleanup_all`: the completions are taken and reported.
  pub settle : Registry C → CleanupAll C
  unfolding sort
  settle r = done (record r { completed = [] }) (sort (reports r.completed))

  -- The registry is unlocked between any two of the call's own locks. `others i` is what other tasks do
  -- to it in the gap `i` of the call: before a claim, while the claimed cleanup is awaited, before the
  -- entries are counted, before the completions are taken, and while the call waits for a change.
  pub cleanup_all :
      (C → Outcome) → (ℕ → Registry C → Registry C) → ℕ → ℕ → Registry C → CleanupAll C
  unfolding pending_count
  cleanup_all run others zero i r = spent
  cleanup_all run others (suc fuel) i r =
      let (r', found) = claim_next (others i r) in
      let between = others (i + 1) r' in
      elim found [
        | some (k, token, c) ↦ cleanup_all run others fuel (i + 2) (finish k token (run c) between)
        | none ↦ elim (eqb (pending_count between) 0) [
          | true ↦ settle (others (i + 2) between)
          | false ↦ cleanup_all run others fuel (i + 2) between
        ]
      ]

  holds-finish :
      (k : String) (token : ℕ) (o : Outcome) (r : Registry C)
      → holds k token (finish k token o r) ≡ false
  unfolding holds finish
  holds-finish k token o r = ground (arith, lookup-remove k k r.entries, string_eq.beq_iff k k)

  -- A round of `cleanup_one` answers exactly if it leaves no entry of the resource under the token.
  pub cleanup_one-answers :
      (run : C → Outcome) (meanwhile : Registry C → Registry C) (k : String) (token : ℕ)
      (r : Registry C)
      → let (r', answer) = cleanup_one run meanwhile k token r in
        is_some answer ≡ not (holds k token r')
  unfolding cleanup_one
  cleanup_one-answers run meanwhile k token r = elim (Option-cases (claim k token r).1) [
    | inl e ↦ ground arith
    | inr (c, e) ↦ ground (arith, holds-finish k token (run c) (meanwhile (claim k token r).0))
  ]

  -- `abandon_all` leaves no entry and no completion, and answers each completion once.
  pub abandon_all_lem :
      (r : Registry C)
      → (pending_count (abandon_all r).0 ≡ 0) × Perm (abandon_all r).1 (reports r.completed)
  unfolding abandon_all pending_count
  abandon_all_lem r = (λ i. 0, sort-perm _)

  -- Every entry still waits for its cleanup.
  abbrev pub Ready : Assoc String (Entry C) → Type 0
  Ready [] = Unit
  Ready ((k, e) ∷ m) = ((c : C) × (e.cleanup ≡ some c) × (e.state ≡ pending)) × Ready m

  abbrev pub outcome : (C → Outcome) → Option C → Outcome
  outcome run none = none
  outcome run (some c) = run c

  -- What the cleanups of the entries answer.
  abbrev pub outcomes : (C → Outcome) → Assoc String (Entry C) → List Report
  outcomes run [] = []
  outcomes run ((k, e) ∷ m) = (k, outcome run e.cleanup) ∷ outcomes run m

  abbrev pub registry : ℕ → Assoc String (Entry C) → List Completion → Registry C
  registry n m cs = record { next_token = n; entries = m; completed = cs }

  take_first :
      (run : C → Outcome) (n : ℕ) (k : String) (e : Entry C) (c : C) (m : Assoc String (Entry C))
      (cs : List Completion)
      → e.cleanup ≡ some c
      → e.state ≡ pending
      → lookup k m ≡ none
      → (claim_next (registry n ((k, e) ∷ m) cs)
          ≡ (registry n ((k, claimed e) ∷ m) cs, some (k, e.token, c)))
        × (finish k e.token (run c) (registry n ((k, claimed e) ∷ m) cs)
            ≡ registry n m (cs ++ record { resource = k; token = e.token; result = run c } ∷ []))
  unfolding claim_next finish lookup remove
  take_first run n k e c m cs h p u =
      (ground arith, ground (arith, string_eq.beq_iff k k, remove_absent k m))

  run_all :
      (run : C → Outcome) (m : Assoc String (Entry C)) (n fuel i : ℕ) (cs : List Completion)
      → UniqueKeys m
      → Ready m
      → length m < fuel
      → cleanup_all run (λ j r. r) fuel i (registry n m cs)
        ≡ done (registry n [] []) (sort (reports cs ++ outcomes run m))
  unfolding cleanup_all
  run_all run m n zero i cs u y f = elim f [ ]
  run_all run [] n (suc fuel) i cs u y f = unfold settle claim_next pending_count in rw append-nil
  run_all run ((k, e) ∷ m) n (suc fuel) i cs u ((c, h, p), y) f =
      let one : Completion = record { resource = k; token = e.token; result = run c } in
      let (first, ended) = take_first run n k e c m cs h p u.0 in
      rw (first, cleanup_all)
        (rw (ap (λ (q : Registry C × Option (String × ℕ × C)). q.0) first, ended)
          (run_all run m n fuel (i + 2) (cs ++ one ∷ []) u.1 y (omega arith)
            ∙ ap (λ (rs : List Report). done (registry n [] []) (sort rs))
                (rw (h, map-append, append_assoc))))

-- If no other task changes the registry during the call (`others`), the entries have distinct names, and
-- each still waits for its cleanup, `cleanup_all` ends with no entry and no completion left, and its
-- answer holds, each as often as it was owed, the completions that were left and
-- the result of each entry's cleanup. Fuel above the number of entries is enough.
pub cleanup_all_lem :
    {C : Type 0} (run : C → Outcome) (others : ℕ → Registry C → Registry C) (r : Registry C)
    (fuel : ℕ)
    → ((i : ℕ) → (q : Registry C) → others i q ≡ q)
    → UniqueKeys r.entries
    → Ready r.entries
    → length r.entries < fuel
    → (out : List Report) × (cleanup_all run others fuel 0 r
        ≡ done (record r { entries = []; completed = [] }) out)
      × Perm out (reports r.completed ++ outcomes run r.entries)
cleanup_all_lem {C} run others r fuel quiet u y f =
    let still : others ≡ (λ i q. q) = λ t i q. quiet i q t in
    (
      sort (reports r.completed ++ outcomes run r.entries),
      ap (λ (q : ℕ → Registry C → Registry C). cleanup_all run q fuel 0 r) still
          ∙ run_all run r.entries r.next_token fuel 0 r.completed u y f,
      sort-perm _,
    )
