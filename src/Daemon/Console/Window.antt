-- ===== src/Daemon/Console/Window.antt =====
-- The console log of src/daemon/console.rs as a window on all that was written.
use browserkit.Common.{
  ℕ, suc, ◌-◌, ◌≤◌, ◌≡◌, refl, List, [], ◌∷◌, ◌++◌, arith, leb, leb→le, leb-lt, Bool-cases, inl,
  inr, length, drop, length-append, sym, ◌∙◌, ap,
}
use mathlib.Core.List.{append_assoc, append-nil}
use browserkit.Daemon.Console.{
  ConsoleEntry, console_log_max, push_console_entry, push_all, last_entries,
}

last_entries_short : (es : List ConsoleEntry) → length es ≤ console_log_max → last_entries es ≡ es
last_entries_short es h =
    let e : length es - console_log_max ≡ 0 = omega arith in ap (λ (n : ℕ). drop n es) e

last_entries_cons :
    (e : ConsoleEntry) (es : List ConsoleEntry)
    → console_log_max ≤ length es
    → last_entries (e ∷ es) ≡ last_entries es
last_entries_cons e es h =
    let q : suc (length es) - console_log_max ≡ suc (length es - console_log_max) = omega arith in
    ap (λ (n : ℕ). drop n (e ∷ es)) q

push_one :
    (e : ConsoleEntry) (log es : List ConsoleEntry)
    → length log ≤ console_log_max
    → (last_entries (push_console_entry e log ++ es) ≡ last_entries (log ++ e ∷ es))
      × (length (push_console_entry e log) ≤ console_log_max)
unfolding push_console_entry
push_one e [] es h = (refl, omega arith)
push_one e (x ∷ log) es h = elim (Bool-cases (leb console_log_max (suc (length log)))) [
  | inl full ↦ rw full (
    rw append_assoc (
        sym (
          last_entries_cons x (log ++ e ∷ es)
            (omega (arith, leb→le _ _ full, length-append log (e ∷ es))))),
    omega (arith, length-append log (e ∷ [])),
  )
  | inr free ↦ rw free (
    ap (λ (ys : List ConsoleEntry). last_entries (x ∷ ys)) (append_assoc log (e ∷ []) es),
    omega (arith, leb-lt _ _ free, length-append log (e ∷ [])),
  )
]

-- However many entries a tab writes, its log, if it holds at most 200 at first, is the last 200 of all that it held and was given, in
-- their order.
pub push_all-last_entries :
    (es log : List ConsoleEntry)
    → length log ≤ console_log_max
    → (push_all es log ≡ last_entries (log ++ es)) × (length (push_all es log) ≤ console_log_max)
unfolding push_all
push_all-last_entries [] log h = (rw append-nil (sym (last_entries_short log h)), h)
push_all-last_entries (e ∷ es) log h =
    let (same, fits) = push_one e log es h in
    let (rest, le) = push_all-last_entries es (push_console_entry e log) fits in (rest ∙ same, le)
