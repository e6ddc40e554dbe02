-- ===== src/Daemon/Protocol.antt =====
-- `read_request` of src/daemon/protocol.rs up to the JSON: how a line is cut out of the bytes of a
-- connection. A text is the list of its code points, and `decode` is `String::from_utf8_lossy`.
pub mod Lines
pub mod Framing
use browserkit.Common.{
  ℕ, zero, ◌+◌, ◌≡◌, Bool, true, false, Option, none, some, List, [], ◌∷◌, ◌++◌, eqb, leb,
  if◌then◌else◌, length,
}

abbrev pub max_request_line_bytes : ℕ
max_request_line_bytes = 1048576

-- What the next read of the connection brings, when the buffer is used up.
pub data Fill : Type 0 where
  filled : List ℕ → Fill
  failed : Fill

-- What a call leaves and answers. The error of a line that is too long is `too_large`; `line` goes to
-- the JSON parser.
pub data ReadRequest : Type 0 where
  eof io_error : ReadRequest
  too_large : List Fill → ReadRequest
  line : List ℕ → List Fill → ReadRequest

abbrev pub newline : ℕ
newline = 10

-- The bytes up to and including the first newline, and those behind it.
pub split_line : List ℕ → Option (List ℕ × List ℕ)
split_line [] = none
split_line (b ∷ bs) =
    if eqb b newline
    then some (b ∷ [], bs)
    else elim (split_line bs) [ none ↦ none | some (chunk, rest) ↦ some (b ∷ chunk, rest) ]

-- The buffer behind what was consumed; the next read fills an empty one.
abbrev pub buffered : List ℕ → List Fill → List Fill
buffered [] fills = fills
buffered (b ∷ bs) fills = filled (b ∷ bs) ∷ fills

-- At the end of the stream.
abbrev pub ended : ℕ → List ℕ → ReadRequest
ended total text = if eqb total 0 then eof else line text []

pub read_line : (List ℕ → List ℕ) → List Fill → ℕ → List ℕ → ReadRequest
unfolding split_line
read_line decode [] total text = ended total text
read_line decode (failed ∷ fills) total text = io_error
read_line decode (filled [] ∷ fills) total text = ended total text
read_line decode (filled (b ∷ bs) ∷ fills) total text =
    let more = read_line decode fills (total + length (b ∷ bs)) (text ++ decode (b ∷ bs)) in
    elim (split_line (b ∷ bs)) [
      | some (chunk, rest) ↦
          if leb (total + length chunk) max_request_line_bytes
          then line (text ++ decode chunk) (buffered rest fills)
          else too_large (buffered rest fills)
      | none ↦
          if leb (total + length (b ∷ bs)) max_request_line_bytes then more else too_large fills
    ]

pub read_request : (List ℕ → List ℕ) → List Fill → ReadRequest
unfolding read_line
read_request decode fills = read_line decode fills 0 []
