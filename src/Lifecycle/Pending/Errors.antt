-- ===== src/Lifecycle/Pending/Errors.antt =====
-- `OwnershipCleanupError` of src/runtime/lifecycle.rs: which failures of a cleanup mean that the
-- resource is already gone.
use browserkit.Common.{
  ◌≡◌, arith, true, false, Bool-cases, ◌⊎◌, inl, inr, Bool, false, ◌&&◌, ◌||◌, String, ◌==◌,
  string_eq,
}
use browserkit.Common.Int.{ℤ, negsuc, int_eqb}

pub data OwnershipCleanupError : Type 0 where
  protocol : ℤ → String → OwnershipCleanupError
  target_still_present : String → OwnershipCleanupError
  deadline_exceeded : String → OwnershipCleanupError
  other : String → OwnershipCleanupError

pub is_missing_target : OwnershipCleanupError → Bool
is_missing_target (protocol code message) =
    int_eqb code (negsuc 31999)
    && (message == "No target with given id" || message == "No target with given id found")
is_missing_target _ = false

pub is_missing_session : OwnershipCleanupError → Bool
is_missing_session (protocol code message) =
    (int_eqb code (negsuc 31999) || int_eqb code (negsuc 32000))
    && (message == "No session with given id"
        || (message == "Session with given id not found"
            || message == "Session with given id not found."))
is_missing_session _ = false

-- The two texts of a missing target are none of those of a missing session.
target_text :
    (code : ℤ) (message : String)
    → (message ≡ "No target with given id") ⊎ (message ≡ "No target with given id found")
    → is_missing_session (protocol code message) ≡ false
unfolding is_missing_session
target_text code message (inl e) = rw e (ground arith)
target_text code message (inr e) = rw e (ground arith)

-- No error says both that a target is gone and that a session is.
pub missing_one :
    (e : OwnershipCleanupError) → is_missing_target e ≡ true → is_missing_session e ≡ false
unfolding is_missing_target
missing_one (protocol code message) h = elim (Bool-cases (message == "No target with given id")) [
  | inl e ↦ target_text code message (inl ((string_eq.beq_iff message _).0 e))
  | inr e ↦ target_text code message (inr ((string_eq.beq_iff message _).0 (ground arith)))
]
missing_one (target_still_present t) h = cc
missing_one (deadline_exceeded t) h = cc
missing_one (other t) h = cc
