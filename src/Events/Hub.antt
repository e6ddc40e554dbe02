-- ===== src/Events/Hub.antt =====
-- `EventHub` of src/runtime/event.rs. An event, an identity, a time and an error snapshot are types
-- of the caller; the clock is an argument.
pub mod Streams
use browserkit.Common.{
  ℕ, ◌+◌, ◌≡◌, Bool, true, false, Option, none, some, List, [], ◌∷◌, if◌then◌else◌, saturating_inc,
  nat_eq,
}
use browserkit.Common.Assoc.{Assoc, insert, remove}
use browserkit.Events.Mpsc.{Mpsc}

pub data EventStreamCloseReason : Type 0 where
  scope_closed target_replaced disconnected source_closed route_failed : EventStreamCloseReason

pub record EventStreamTerminal (X : Type 0) : Type 0 where
  pub reason : EventStreamCloseReason
  pub browser_error : Option X

pub record EventEnvelope (E I T : Type 0) : Type 0 where
  pub sequence : ℕ
  pub observed_at : T
  pub identity : I
  pub event : E

-- `Result<EventEnvelope<E>, EventStreamError>`.
pub data StreamItem (E I T X : Type 0) : Type 0 where
  ok : EventEnvelope E I T → StreamItem E I T X
  err : EventStreamTerminal X → StreamItem E I T X

-- A subscriber is the sending end of a channel.
pub record EventHubState (X : Type 0) : Type 0 where
  pub subscribers : Assoc ℕ ℕ
  pub next_subscriber_id : ℕ
  pub next_sequence : ℕ
  pub closed : Option (EventStreamTerminal X)

pub new : {X : Type 0} → EventHubState X
new = record { subscribers = []; next_subscriber_id = 1; next_sequence = 1; closed = none }

-- `retain` with a send to each subscriber: one whose receiver is gone is dropped.
pub deliver : {W Item : Type 0} → Mpsc W Item → Item → Assoc ℕ ℕ → W → W × Assoc ℕ ℕ
deliver m item [] w = (w, [])
deliver m item ((id, c) ∷ subscribers) w =
    let (v, kept) = deliver m item subscribers (m.send c item w) in
    (v, if m.accepts c w then (id, c) ∷ kept else kept)

module _ {E I T X W : Type 0} (m : Mpsc W (StreamItem E I T X)) where
  -- The new state, that of the channels, and the stream: its subscriber's id and its channel.
  pub subscribe : EventHubState X → W → EventHubState X × W × (ℕ × ℕ)
  subscribe h w =
      let (v, c) = m.unbounded_channel w in
      let g = record h { next_subscriber_id = saturating_inc h.next_subscriber_id } in
      elim h.closed [
        | some terminal ↦ (g, m.send c (err terminal) v, (h.next_subscriber_id, c))
        | none ↦ (
          record g { subscribers = insert h.next_subscriber_id c h.subscribers },
          v,
          (h.next_subscriber_id, c),
        )
      ]

  pub publish_with_identity : E → I → T → EventHubState X → W → EventHubState X × W
  unfolding deliver
  publish_with_identity event identity now h w = elim h.closed [
    | some terminal ↦ (h, w)
    | none ↦
        let envelope : EventEnvelope E I T = record {
          sequence = h.next_sequence;
          observed_at = now;
          identity = identity;
          event = event;
        } in
        let (v, kept) = deliver m (ok envelope) h.subscribers w in
        (record h { next_sequence = saturating_inc h.next_sequence; subscribers = kept }, v)
  ]

  -- Also `close`, `close_with_error`, and the drop of the hub with the reason `source_closed`.
  pub close_terminal : EventStreamTerminal X → EventHubState X → W → EventHubState X × W
  unfolding deliver
  close_terminal terminal h w = elim h.closed [
    | some first ↦ (h, w)
    | none ↦
        let (v, kept) = deliver m (err terminal) h.subscribers w in
        (record h { closed = some terminal; subscribers = [] }, v)
  ]

pub close : {X : Type 0} → EventStreamCloseReason → EventStreamTerminal X
close reason = record { reason = reason; browser_error = none }

-- The drop of a stream.
pub unsubscribe : {X : Type 0} → ℕ → EventHubState X → EventHubState X
unsubscribe id h = record h { subscribers = remove id h.subscribers }
