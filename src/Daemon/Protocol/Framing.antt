-- ===== src/Daemon/Protocol/Framing.antt =====
-- Which bytes of a connection `read_request` of src/daemon/protocol.rs takes for a line, however the
-- reads have cut them.
use mathlib.Core.List.{append_assoc}
use browserkit.Common.{
  ℕ, ◌+◌, ◌≤◌, ◌≡◌, ◌↔◌, refl, sym, ap, ◌∙◌, false, none, some, List, [], ◌∷◌, ◌++◌, arith, length,
  length-append, Option-cases, inl, inr, map,
}
use browserkit.Daemon.Protocol.{
  Fill, filled, failed, ReadRequest, line, newline, max_request_line_bytes, split_line, buffered,
  read_line, read_request,
}
use browserkit.Daemon.Protocol.Lines.{
  bytes-buffered, bytes, AreFull, has_newline, concat, split_line-some, split_line-parts,
  split_line-none, has_newline-later, split_line-clean, split_line-ended, has_newline-append,
}

line_inj : (xs ys : List ℕ) → line xs [] ≡ line ys [] → xs ≡ ys
line_inj xs ys e = cc

module _ (decode : List ℕ → List ℕ) where
  -- What a call should answer: the line is made of some whole reads and of the first part of the one
  -- after them, each of these pieces was decoded on its own, and the second part of that read and the
  -- `more` reads behind it are still to come.
  pub record Framed (fills : List Fill) (text body rest : List ℕ) (answer : ReadRequest)
      : Type 0 where
    pub whole_reads : List (List ℕ)
    pub last_piece : List ℕ
    pub after : List ℕ
    pub more : List Fill
    pub reads : fills ≡ map filled whole_reads ++ filled (last_piece ++ after) ∷ more
    pub whole : concat whole_reads ++ last_piece ≡ body ++ newline ∷ []
    pub behind : bytes (buffered after more) ≡ rest
    pub answers :
        answer
        ≡ line
            (text ++ (concat (map decode whole_reads) ++ decode last_piece))
            (buffered after more)

  read_hit :
      (b total : ℕ) (bs chunk after text : List ℕ) (fills : List Fill)
      → split_line (b ∷ bs) ≡ some (chunk, after)
      → total + length chunk ≤ max_request_line_bytes
      → read_line decode (filled (b ∷ bs) ∷ fills) total text
        ≡ line (text ++ decode chunk) (buffered after fills)
  unfolding read_line
  read_hit b total bs chunk after text fills s h = rw (s, read_line) (ground arith)

  read_miss :
      (b total : ℕ) (bs text : List ℕ) (fills : List Fill)
      → split_line (b ∷ bs) ≡ none
      → total + length (b ∷ bs) ≤ max_request_line_bytes
      → read_line decode (filled (b ∷ bs) ∷ fills) total text
        ≡ read_line decode fills (total + length (b ∷ bs)) (text ++ decode (b ∷ bs))
  unfolding read_line
  read_miss b total bs text fills s h = rw (s, read_line) (ground arith)

  frames :
      (fills : List Fill) (total : ℕ) (text body rest : List ℕ)
      → AreFull fills
      → bytes fills ≡ body ++ newline ∷ rest
      → has_newline body ≡ false
      → total + length body + 1 ≤ max_request_line_bytes
      → Framed fills text body rest (read_line decode fills total text)
  frames [] total text [] rest f e n h = cc
  frames [] total text (c ∷ body) rest f e n h = cc
  frames (filled [] ∷ fills) total text body rest f e n h = elim f [ ]
  frames (failed ∷ fills) total text body rest f e n h = elim f [ ]
  frames (filled (b ∷ bs) ∷ fills) total text body rest f e n h =
      elim (Option-cases (split_line (b ∷ bs))) [
        | inr ((chunk, after), s) ↦
            let (c, a) = split_line-some (b ∷ bs) (bytes fills) body rest chunk after e n s in
            rw
              (read_hit b total bs chunk after text fills s (
                omega
                  (arith, ap (λ (xs : List ℕ). length xs) c, length-append body (newline ∷ []))))
              (record {
                whole_reads = [];
                last_piece = chunk;
                after = after;
                more = fills;
                reads =
                    ap (λ (xs : List ℕ). filled xs ∷ fills)
                      (sym (split_line-parts (b ∷ bs) chunk after s));
                whole = c;
                behind = bytes-buffered after fills ∙ a;
                answers = refl;
              })
        | inl s ↦
            let (later, p, q) = split_line-none (b ∷ bs) (bytes fills) body rest e n s in
            let size : length body ≡ length (b ∷ bs) + length later =
              ap (λ (xs : List ℕ). length xs) p ∙ length-append (b ∷ bs) later in
            let clean : has_newline later ≡ false = has_newline-later (b ∷ bs) later (rw p at n) in
            let next =
              frames fills (total + length (b ∷ bs)) (text ++ decode (b ∷ bs)) later rest f q clean
                (omega arith) in
            rw (read_miss b total bs text fills s (omega arith)) (record {
              whole_reads = (b ∷ bs) ∷ next.whole_reads;
              last_piece = next.last_piece;
              after = next.after;
              more = next.more;
              reads = ap (λ (fs : List Fill). filled (b ∷ bs) ∷ fs) next.reads;
              whole =
                  append_assoc (b ∷ bs) (concat next.whole_reads) next.last_piece
                  ∙ ap (λ (xs : List ℕ). b ∷ bs ++ xs) next.whole
                  ∙ sym (append_assoc (b ∷ bs) later (newline ∷ []))
                  ∙ ap (λ (xs : List ℕ). xs ++ newline ∷ []) (sym p);
              behind = next.behind;
              answers =
                  next.answers
                  ∙ ap (λ (xs : List ℕ). line xs (buffered next.after next.more))
                      (append_assoc text (decode (b ∷ bs))
                          (concat (map decode next.whole_reads) ++ decode next.last_piece)
                        ∙ ap (λ (xs : List ℕ). text ++ xs)
                            (sym (
                              append_assoc (decode (b ∷ bs)) (concat (map decode next.whole_reads))
                                (decode next.last_piece))));
            })
      ]

  -- However the reads of a connection have cut its bytes, as long as none of them fails and none but the
  -- last is empty: a line of at most 1 MiB with its newline is taken whole and nothing behind it. It
  -- consists of some reads and the first part of the next one, and the text of the answer is what the
  -- decoder gives for each of these reads and for that part, one by one.
  pub read_request-Framed :
      (fills : List Fill) (body rest : List ℕ)
      → AreFull fills
      → bytes fills ≡ body ++ newline ∷ rest
      → has_newline body ≡ false
      → length body + 1 ≤ max_request_line_bytes
      → Framed fills [] body rest (read_request decode fills)
  unfolding read_request
  read_request-Framed fills body rest f e n h = frames fills 0 [] body rest f e n (omega arith)

  from_two :
      (b c : ℕ) (bs cs : List ℕ)
      → has_newline (b ∷ bs) ≡ false
      → has_newline (c ∷ cs) ≡ false
      → length (b ∷ bs) + length (c ∷ cs) + 1 ≤ max_request_line_bytes
      → let last = c ∷ cs ++ newline ∷ [] in
        read_line decode (filled (b ∷ bs) ∷ filled last ∷ []) 0 []
        ≡ line (decode (b ∷ bs) ++ decode last) []
  from_two b c bs cs n m h =
      read_miss b 0 bs [] (filled (c ∷ cs ++ newline ∷ []) ∷ []) (split_line-clean (b ∷ bs) n)
        (omega arith)
      ∙ read_hit c (0 + length (b ∷ bs)) (cs ++ newline ∷ []) (c ∷ cs ++ newline ∷ []) []
          (decode (b ∷ bs)) [] (split_line-ended (c ∷ cs) m)
          (omega (arith, length-append cs (newline ∷ [])))

  from_one :
      (b c : ℕ) (bs cs : List ℕ)
      → has_newline (b ∷ bs) ≡ false
      → has_newline (c ∷ cs) ≡ false
      → length (b ∷ bs) + length (c ∷ cs) + 1 ≤ max_request_line_bytes
      → let last = c ∷ cs ++ newline ∷ [] in
        read_line decode (filled (b ∷ bs ++ last) ∷ []) 0 [] ≡ line (decode (b ∷ bs ++ last)) []
  from_one b c bs cs n m h =
      let last = c ∷ cs ++ newline ∷ [] in
      let same = append_assoc bs (c ∷ cs) (newline ∷ []) in
      let whole : split_line (b ∷ bs ++ last) ≡ some (b ∷ bs ++ last, []) =
        rw (← same)
          (split_line-ended (b ∷ bs ++ c ∷ cs) (has_newline-append (b ∷ bs) (c ∷ cs) n m)) in
      read_hit b 0 (bs ++ last) (b ∷ bs ++ last) [] [] [] whole
        (omega (arith, length-append bs last, length-append cs (newline ∷ [])))

  -- A line within the limit that arrives in two reads, neither of which is empty, is answered as the one
  -- that arrives in one read exactly if the decoder gives for the whole line what it gives for the two
  -- pieces in turn.
  pub read_request-two_reads :
      (b c : ℕ) (bs cs : List ℕ)
      → has_newline (b ∷ bs) ≡ false
      → has_newline (c ∷ cs) ≡ false
      → length (b ∷ bs) + length (c ∷ cs) + 1 ≤ max_request_line_bytes
      → let last = c ∷ cs ++ newline ∷ [] in
        (read_request decode (filled (b ∷ bs) ∷ filled last ∷ [])
          ≡ read_request decode (filled (b ∷ bs ++ last) ∷ []))
        ↔ (decode (b ∷ bs) ++ decode last ≡ decode (b ∷ bs ++ last))
  unfolding read_request
  read_request-two_reads b c bs cs n m h =
      let two = from_two b c bs cs n m h in
      let one = from_one b c bs cs n m h in
      (
        λ q. line_inj _ _ (sym two ∙ q ∙ one),
        λ q. two ∙ ap (λ (xs : List ℕ). line xs []) q ∙ sym one,
      )
