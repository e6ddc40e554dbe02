-- ===== src/Examples/Cleanups.antt =====
-- The registry of src/runtime/lifecycle.rs with one or two cleanups.
use mathlib.Core.List.{Perm}
use browserkit.Common.{ℕ, ◌≤◌, ◌≡◌, refl, some, List, [], ◌∷◌, ◌++◌, String, arith}
use browserkit.Common.Assoc.{lookup}
use browserkit.Lifecycle.Pending.{new, register, claim, pending, Outcome, Registry}
use browserkit.Lifecycle.Pending.Errors.{other}
use browserkit.Lifecycle.Pending.Tasks.{
  World, begin, grab, Reach, here, next, registers, claims, places, Reach-places,
}
use browserkit.Lifecycle.Pending.Cleanup.{
  Report, reports, outcomes, cleanup_all, done, cleanup_all_lem,
}

abbrev registered : World String
registered = record { registry = (register "page" "close it" new).0; jobs = [] }

abbrev claimed : World String
claimed = record {
  registry = (claim "page" 1 registered.registry).0;
  jobs = grab "page" 1 (claim "page" 1 registered.registry).1 [];
}

to_claimed : Reach begin claimed
to_claimed =
    next (next here (registers "page" "close it" (unfold new in omega arith) refl))
      (claims "page" 1 refl)

Reach-places_example : places 1 claimed ≤ 1
Reach-places_example = Reach-places 1 to_claimed

abbrev two : Registry String
two = record {
  next_token = 3;
  entries =
      ("page", record { token = 1; state = pending; cleanup = some "close it" })
      ∷ ("context", record { token = 2; state = pending; cleanup = some "dispose of it" })
      ∷ [];
  completed = [];
}

abbrev fails : String → Outcome
fails command = some (other command)

abbrev undisturbed : ℕ → Registry String → Registry String
undisturbed i r = r

cleanup_all_lem_example :
    (out : List Report) × (cleanup_all fails undisturbed 3 0 two
      ≡ done (record two { entries = []; completed = [] }) out)
    × Perm out (reports two.completed ++ outcomes fails two.entries)
cleanup_all_lem_example =
    cleanup_all_lem fails undisturbed two 3 (λ i q. refl) (unfold lookup in (refl, (refl, tt)))
      (("close it", refl, refl), (("dispose of it", refl, refl), tt)) (omega arith)
