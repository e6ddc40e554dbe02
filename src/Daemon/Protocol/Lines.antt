-- ===== src/Daemon/Protocol/Lines.antt =====
-- The bytes of a connection of src/daemon/protocol.rs and the first newline among them.
use browserkit.Common.{
  ℕ, ◌≡◌, refl, Bool, true, false, none, some, List, [], ◌∷◌, ◌++◌, arith, eqb, eqb_iff,
  if◌then◌else◌, Option-cases, inl, inr,
}
use browserkit.Daemon.Protocol.{Fill, filled, failed, newline, split_line, buffered}

-- The bytes that a connection is still to bring.
abbrev pub bytes : List Fill → List ℕ
bytes [] = []
bytes (filled bs ∷ fills) = bs ++ bytes fills
bytes (failed ∷ fills) = bytes fills

-- No read fails, and none but the last brings nothing.
abbrev pub AreFull : List Fill → Type 0
AreFull [] = Unit
AreFull (filled [] ∷ fills) = ⊥
AreFull (filled (b ∷ bs) ∷ fills) = AreFull fills
AreFull (failed ∷ fills) = ⊥

abbrev pub has_newline : List ℕ → Bool
has_newline [] = false
has_newline (b ∷ bs) = if eqb b newline then true else has_newline bs

abbrev pub concat : List (List ℕ) → List ℕ
concat [] = []
concat (xs ∷ xss) = xs ++ concat xss

pub bytes-buffered :
    (rest : List ℕ) (fills : List Fill) → bytes (buffered rest fills) ≡ rest ++ bytes fills
bytes-buffered [] fills = refl
bytes-buffered (b ∷ bs) fills = refl

-- The first newline of a chunk, if it has one, is that of the whole.
pub split_line-some :
    (bs after body rest chunk left : List ℕ)
    → bs ++ after ≡ body ++ newline ∷ rest
    → has_newline body ≡ false
    → split_line bs ≡ some (chunk, left)
    → (chunk ≡ body ++ newline ∷ []) × (left ++ after ≡ rest)
unfolding split_line
split_line-some [] after body rest chunk left e n s = cc
split_line-some (b ∷ bs) after [] rest chunk left e n s = ground (arith, eqb_iff b newline)
split_line-some (b ∷ bs) after (c ∷ body) rest chunk left e n s =
    elim (Option-cases (split_line bs)) [
      | inl f ↦ ground arith
      | inr ((ch, l), f) ↦ ground (arith, split_line-some bs after body rest ch l)
    ]

-- A split keeps the bytes.
pub split_line-parts :
    (bs chunk left : List ℕ) → split_line bs ≡ some (chunk, left) → chunk ++ left ≡ bs
unfolding split_line
split_line-parts [] chunk left s = cc
split_line-parts (b ∷ bs) chunk left s = elim (Option-cases (split_line bs)) [
  | inl f ↦ ground arith
  | inr ((ch, l), f) ↦ ground (arith, split_line-parts bs ch l f)
]

pub split_line-none :
    (bs after body rest : List ℕ)
    → bs ++ after ≡ body ++ newline ∷ rest
    → has_newline body ≡ false
    → split_line bs ≡ none
    → (later : List ℕ) × (body ≡ bs ++ later) × (after ≡ later ++ newline ∷ rest)
unfolding split_line
split_line-none [] after body rest e n s = (body, refl, e)
split_line-none (b ∷ bs) after [] rest e n s = ground (arith, eqb_iff b newline)
split_line-none (b ∷ bs) after (c ∷ body) rest e n s = elim (Option-cases (split_line bs)) [
  | inl f ↦
      let (later, p, q) = split_line-none bs after body rest (ground arith) (ground arith) f in
      (later, ground arith, q)
  | inr ((ch, l), f) ↦ ground arith
]

pub has_newline-later :
    (bs later : List ℕ) → has_newline (bs ++ later) ≡ false → has_newline later ≡ false
has_newline-later [] later n = n
has_newline-later (b ∷ bs) later n = ground (arith, has_newline-later bs later)

pub split_line-clean : (bs : List ℕ) → has_newline bs ≡ false → split_line bs ≡ none
unfolding split_line
split_line-clean [] n = refl
split_line-clean (b ∷ bs) n = ground (arith, split_line-clean bs)

pub split_line-ended :
    (bs : List ℕ)
    → has_newline bs ≡ false
    → split_line (bs ++ newline ∷ []) ≡ some (bs ++ newline ∷ [], [])
unfolding split_line
split_line-ended [] n = refl
split_line-ended (b ∷ bs) n = ground (arith, split_line-ended bs)

pub has_newline-append :
    (bs cs : List ℕ)
    → has_newline bs ≡ false
    → has_newline cs ≡ false
    → has_newline (bs ++ cs) ≡ false
has_newline-append [] cs n m = m
has_newline-append (b ∷ bs) cs n m = ground (arith, has_newline-append bs cs)
