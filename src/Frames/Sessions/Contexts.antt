-- ===== src/Frames/Sessions/Contexts.antt =====
-- The execution contexts of `FrameState` of src/runtime/frame.rs. The number of a context is an
-- `i64` that is only compared.
use browserkit.Common.{
  ℕ, Bool, not, ◌&&◌, ◌||◌, Option, none, some, List, [], ◌∷◌, ◌++◌, String, eqb, if◌then◌else◌,
  keep, ◌==◌, string_eq,
}

pub record MainWorldContext : Type 0 where
  pub id : ℕ
  pub unique_id : String

pub record ExecutionContextRecord : Type 0 where
  pub frame_id : String
  pub session_id : String
  pub context : MainWorldContext

abbrev pub Contexts : Type 0
Contexts = List ExecutionContextRecord

-- The record of a frame in a session.
abbrev pub is_of : String → String → ExecutionContextRecord → Bool
is_of session frame r = (r.session_id == session) && (r.frame_id == frame)

unfoldable pub set_default_context : String → String → ℕ → String → Contexts → Contexts
set_default_context session frame id unique contexts =
    keep (λ r. not (r.session_id == session) || not (r.frame_id == frame)) contexts
    ++ record {
      frame_id = frame;
      session_id = session;
      context = record { id = id; unique_id = unique };
    }
      ∷ []

unfoldable pub default_context : String → String → Contexts → Option MainWorldContext
default_context session frame [] = none
default_context session frame (r ∷ contexts) =
    if is_of session frame r then some r.context else default_context session frame contexts

unfoldable pub remove_context : String → ℕ → String → Contexts → Contexts
remove_context session id unique contexts =
    keep
      (λ r.
        not (r.session_id == session)
        || (if unique == ""
            then not (eqb r.context.id id)
            else not (r.context.unique_id == unique)))
      contexts

unfoldable pub clear_contexts : String → Contexts → Contexts
clear_contexts session contexts = keep (λ r. not (r.session_id == session)) contexts
