-- ===== src/Events/Hub/Streams.antt =====
-- What one subscriber of src/runtime/event.rs receives.
use browserkit.Common.{
  ℕ, ◌+◌, ◌≤◌, ◌≡◌, refl, sym, ◌∙◌, ap, Bool, true, false, none, some, List, [], ◌∷◌, ◌++◌, arith,
  eqb, eqb_iff, u64_max, length, Option-cases, Bool-cases, inl, inr, nat_eq, saturating_inc,
}
use mathlib.Core.List.{append-nil, append_assoc}
use browserkit.Common.Assoc.{Assoc, total, lookup, insert, total-insert_new}
use browserkit.Events.Mpsc.{Mpsc}
use browserkit.Events.Hub.{
  EventStreamTerminal, StreamItem, ok, err, EventHubState, deliver, subscribe,
  publish_with_identity, close_terminal,
}

abbrev one_if : Bool → ℕ
one_if true = 1
one_if false = 0

-- How many subscribers send to a channel.
abbrev pub senders : ℕ → Assoc ℕ ℕ → ℕ
senders c = total (λ d. one_if (eqb d c))

module _ {W Item : Type 0} (m : Mpsc W Item) where
  accepts-deliver :
      (item : Item) (c : ℕ) (subs : Assoc ℕ ℕ) (w : W)
      → m.accepts c (deliver m item subs w).0 ≡ m.accepts c w
  unfolding deliver
  accepts-deliver item c [] w = refl
  accepts-deliver item c ((id, d) ∷ subs) w =
      accepts-deliver item c subs (m.send d item w) ∙ m.accepts-send d c item w

  deliver-other :
      (item : Item) (c : ℕ) (subs : Assoc ℕ ℕ) (w : W)
      → senders c subs ≡ 0
      → m.received c (deliver m item subs w).0 ≡ m.received c w
  unfolding deliver
  deliver-other item c [] w h = refl
  deliver-other item c ((id, d) ∷ subs) w h =
      ground (arith, deliver-other item c subs (m.send d item w), m.received-send d c item w)

  senders-deliver-le :
      (item : Item) (c : ℕ) (subs : Assoc ℕ ℕ) (w : W)
      → senders c (deliver m item subs w).1 ≤ senders c subs
  unfolding deliver
  senders-deliver-le item c [] w = omega arith
  senders-deliver-le item c ((id, d) ∷ subs) w =
      ground (arith, senders-deliver-le item c subs (m.send d item w))

  deliver-one :
      (item : Item) (c : ℕ) (subs : Assoc ℕ ℕ) (w : W)
      → m.accepts c w ≡ true
      → senders c subs ≡ 1
      → (m.received c (deliver m item subs w).0 ≡ m.received c w ++ item ∷ [])
        × (senders c (deliver m item subs w).1 ≡ 1)
  unfolding deliver
  deliver-one item c [] w a h = absurd (omega arith)
  deliver-one item c ((id, d) ∷ subs) w a h = elim (Bool-cases (eqb d c)) [
    | inl hit ↦
        let same : d ≡ c = (eqb_iff d c).0 hit in
        let later = deliver-other item c subs (m.send d item w) (ground arith) in
        let fewer = senders-deliver-le item c subs (m.send d item w) in
        (ground (arith, later, m.received-send d c item w), ground (arith, fewer))
    | inr miss ↦
        let (later, one) =
          deliver-one item c subs (m.send d item w) (m.accepts-send d c item w ∙ a)
            (ground arith) in
        (ground (arith, later, m.received-send d c item w), ground (arith, one))
  ]

-- What is done to a hub, by any of its holders.
pub data HubOp (E I T X : Type 0) : Type 0 where
  publishes : E → I → T → HubOp E I T X
  closes : EventStreamTerminal X → HubOp E I T X

-- What a subscriber should receive of a list of operations, from a sequence number on: the events
-- with consecutive numbers up to the first close, and then its terminal alone.
abbrev pub expected : {E I T X : Type 0} → ℕ → List (HubOp E I T X) → List (StreamItem E I T X)
expected n [] = []
expected n (publishes event identity now ∷ ops) =
    ok (record { sequence = n; observed_at = now; identity = identity; event = event })
    ∷ expected (n + 1) ops
expected n (closes terminal ∷ ops) = err terminal ∷ []

module _ {E I T X W : Type 0} (m : Mpsc W (StreamItem E I T X)) where
  pub apply : HubOp E I T X → EventHubState X × W → EventHubState X × W
  apply (publishes event identity now) (h, w) = publish_with_identity m event identity now h w
  apply (closes terminal) (h, w) = close_terminal m terminal h w

  pub apply_all : List (HubOp E I T X) → EventHubState X × W → EventHubState X × W
  apply_all [] s = s
  apply_all (op ∷ ops) s = apply_all ops (apply op s)

  apply-closed :
      (op : HubOp E I T X) (h : EventHubState X) (w : W) (t : EventStreamTerminal X)
      → h.closed ≡ some t
      → apply op (h, w) ≡ (h, w)
  unfolding apply publish_with_identity close_terminal
  apply-closed (publishes event identity now) h w t e = ground arith
  apply-closed (closes terminal) h w t e = ground arith

  -- A closed hub does nothing more.
  apply_all-closed :
      (ops : List (HubOp E I T X)) (h : EventHubState X) (w : W) (t : EventStreamTerminal X)
      → h.closed ≡ some t
      → apply_all ops (h, w) ≡ (h, w)
  unfolding apply_all
  apply_all-closed [] h w t e = refl
  apply_all-closed (op ∷ ops) h w t e =
      ap (apply_all ops) (apply-closed op h w t e) ∙ apply_all-closed ops h w t e

  abbrev enveloped : E → I → T → ℕ → StreamItem E I T X
  enveloped event identity now n =
      ok (record { sequence = n; observed_at = now; identity = identity; event = event })

  publish-open :
      (event : E) (identity : I) (now : T) (h : EventHubState X) (w : W)
      → h.closed ≡ none
      → let sent = deliver m (enveloped event identity now h.next_sequence) h.subscribers w in
        apply (publishes event identity now) (h, w) ≡ (
          record h { next_sequence = saturating_inc h.next_sequence; subscribers = sent.1 },
          sent.0,
        )
  unfolding apply publish_with_identity
  publish-open event identity now h w e = ground arith

  close-open :
      (terminal : EventStreamTerminal X) (h : EventHubState X) (w : W)
      → h.closed ≡ none
      → apply (closes terminal) (h, w) ≡ (
        record h { closed = some terminal; subscribers = [] },
        (deliver m (err terminal) h.subscribers w).0,
      )
  unfolding apply close_terminal
  close-open terminal h w e = ground arith

  -- Whatever is published and closed, in any order and however often: a subscriber of an open hub
  -- whose receiver stays gets every event up to the first close, with consecutive sequence numbers
  -- from the hub's own on, then the terminal of that first close, and nothing after it. This is for
  -- sequence numbers below the largest `u64`.
  pub apply_all-received :
      (ops : List (HubOp E I T X)) (h : EventHubState X) (w : W) (c : ℕ)
      → h.closed ≡ none
      → m.accepts c w ≡ true
      → senders c h.subscribers ≡ 1
      → h.next_sequence + length ops ≤ u64_max
      → m.received c (apply_all ops (h, w)).1 ≡ m.received c w ++ expected h.next_sequence ops
  unfolding apply_all
  apply_all-received [] h w c e a one n = sym (append-nil _)
  apply_all-received (publishes event identity now ∷ ops) h w c e a one n =
      let item = enveloped event identity now h.next_sequence in
      let (got, still) = deliver-one m item c h.subscribers w a one in
      let counted : saturating_inc h.next_sequence ≡ h.next_sequence + 1 = ground arith in
      let next =
        apply_all-received ops
          (record h {
            next_sequence = h.next_sequence + 1;
            subscribers = (deliver m item h.subscribers w).1;
          })
          (deliver m item h.subscribers w).0 c e (accepts-deliver m item c h.subscribers w ∙ a)
          still (omega arith) in
      rw (apply_all, publish-open event identity now h w e)
        (rw counted (next ∙ rw (got, append_assoc) refl))
  apply_all-received (closes terminal ∷ ops) h w c e a one n =
      let h' = record h { closed = some terminal; subscribers = [] } in
      let w' = (deliver m (err terminal) h.subscribers w).0 in
      rw (apply_all, close-open terminal h w e)
        (ap (λ (s : EventHubState X × W). m.received c s.1)
            (apply_all-closed ops h' w' terminal refl)
          ∙ (deliver-one m (err terminal) c h.subscribers w a one).0)

  subscribe-open :
      (h : EventHubState X) (w : W)
      → h.closed ≡ none
      → subscribe m h w ≡ (
        record h {
          next_subscriber_id = saturating_inc h.next_subscriber_id;
          subscribers = insert h.next_subscriber_id (m.unbounded_channel w).1 h.subscribers;
        },
        (m.unbounded_channel w).0,
        (h.next_subscriber_id, (m.unbounded_channel w).1),
      )
  unfolding subscribe
  subscribe-open h w e = ground arith

  subscribe-closed :
      (h : EventHubState X) (w : W) (t : EventStreamTerminal X)
      → h.closed ≡ some t
      → let (v, c) = m.unbounded_channel w in
        subscribe m h w ≡ (
          record h { next_subscriber_id = saturating_inc h.next_subscriber_id },
          m.send c (err t) v,
          (h.next_subscriber_id, c),
        )
  unfolding subscribe
  subscribe-closed h w t e = ground arith

  -- What a stream gets of the operations that follow its subscription: of an open hub every event up
  -- to the first close and the terminal of that close, numbered from the hub's sequence number on and with none of the earlier events;
  -- of a closed hub the terminal of its first close alone. The new channel has no other sender, and
  -- the subscriber's id is not taken.
  pub subscribe-received :
      (ops : List (HubOp E I T X)) (h : EventHubState X) (w : W)
      → senders (m.unbounded_channel w).1 h.subscribers ≡ 0
      → lookup h.next_subscriber_id h.subscribers ≡ none
      → h.next_sequence + length ops ≤ u64_max
      → let (g, v, stream) = subscribe m h w in
        m.received stream.1 (apply_all ops (g, v)).1
        ≡ (elim h.closed [ some t ↦ err t ∷ [] | none ↦ expected h.next_sequence ops ])
  subscribe-received ops h w s l n = elim (Option-cases h.closed) [
    | inl e ↦
        let (v, c) = m.unbounded_channel w in
        let one =
          total-insert_new (λ (d : ℕ). one_if (eqb d c)) h.next_subscriber_id c h.subscribers l in
        let g = record h {
          next_subscriber_id = saturating_inc h.next_subscriber_id;
          subscribers = insert h.next_subscriber_id c h.subscribers;
        } in
        rw (subscribe-open h w e) (
          apply_all-received ops g v c e (m.accepts-new w) (ground (arith, one)) n
          ∙ ground (arith, m.received-new w))
    | inr (t, e) ↦
        let (v, c) = m.unbounded_channel w in
        let g = record h { next_subscriber_id = saturating_inc h.next_subscriber_id } in
        rw (subscribe-closed h w t e) (
          ap (λ (q : EventHubState X × W). m.received c q.1)
            (apply_all-closed ops g (m.send c (err t) v) t e)
          ∙ ground (arith, m.received-send c c (err t) v, m.received-new w, m.accepts-new w))
  ]
