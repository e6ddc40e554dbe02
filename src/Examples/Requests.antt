-- ===== src/Examples/Requests.antt =====
-- A line that a connection brings in two reads, src/daemon/protocol.rs.
use browserkit.Common.{ℕ, ◌≡◌, ◌↔◌, refl, List, [], ◌∷◌, ◌++◌, arith, leb, if◌then◌else◌, map}
use browserkit.Daemon.Protocol.{Fill, filled, newline, read_request}
use browserkit.Daemon.Protocol.Framing.{Framed, read_request-Framed, read_request-two_reads}

-- A byte beyond ASCII that stands alone is the replacement character.
abbrev lossy : List ℕ → List ℕ
lossy = map (λ b. if leb 128 b then 65533 else b)

abbrev reads : List Fill
reads = filled (123 ∷ 195 ∷ []) ∷ filled (169 ∷ 125 ∷ newline ∷ 123 ∷ []) ∷ []

read_request-Framed_example :
    Framed lossy reads [] (123 ∷ 195 ∷ 169 ∷ 125 ∷ []) (123 ∷ []) (read_request lossy reads)
read_request-Framed_example =
    read_request-Framed lossy reads (123 ∷ 195 ∷ 169 ∷ 125 ∷ []) (123 ∷ []) tt refl refl
      (omega arith)

read_request-two_reads_example :
    (read_request lossy (filled (123 ∷ 195 ∷ []) ∷ filled (169 ∷ 125 ∷ newline ∷ []) ∷ [])
      ≡ read_request lossy (filled (123 ∷ 195 ∷ 169 ∷ 125 ∷ newline ∷ []) ∷ []))
    ↔ (lossy (123 ∷ 195 ∷ []) ++ lossy (169 ∷ 125 ∷ newline ∷ [])
        ≡ lossy (123 ∷ 195 ∷ 169 ∷ 125 ∷ newline ∷ []))
read_request-two_reads_example =
    read_request-two_reads lossy 123 169 (195 ∷ []) (125 ∷ []) refl refl (omega arith)
