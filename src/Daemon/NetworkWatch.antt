-- ===== src/Daemon/NetworkWatch.antt =====
-- The pairing of src/daemon/handler/network.rs: a response and the end of its loading are reported
-- together, in whichever order they come. `R` is the type of `PendingResponse`, and `T` that of
-- `TerminalEvent`; `J` is what `terminal` makes of the two, a JSON value.
use browserkit.Common.{
  ℕ, suc, ◌+◌, ◌%◌, ◌^◌, ◌≤◌, ◌<◌, ◌≡◌, refl, ap, ◌∙◌, Bool, false, not, ◌||◌, Option, none, some,
  [], String, eqb, leb, ltb, if◌then◌else◌, beq_refl, string_eq, length, arith,
}
use browserkit.Common.Assoc.{
  Assoc, lookup, insert, remove, contains_key, length-insert, lookup-insert,
}
use browserkit.Daemon.Session.{saturating_add}

pub record TerminalBuffer (T : Type 0) : Type 0 where
  pub events : Assoc String T
  pub capacity : ℕ
  pub dropped : ℕ

pub record Watch (R T : Type 0) : Type 0 where
  pub pending : Assoc String R
  pub terminals : TerminalBuffer T

pub data TerminalRecord (J : Type 0) : Type 0 where
  completed : J → TerminalRecord J
  buffered : TerminalRecord J
  capacity_reached : String → TerminalRecord J

-- Whether another response can still be counted.
unfoldable pub can_track_matching_response : ℕ → ℕ → ℕ → Bool
can_track_matching_response responses pending count = ltb (saturating_add responses pending) count

module _ {T : Type 0} where
  -- The assertion fails (`none`) on no capacity.
  unfoldable pub new_buffer : ℕ → Option (TerminalBuffer T)
  new_buffer capacity =
      if ltb 0 capacity
      then some (record { events = []; capacity = capacity; dropped = 0 })
      else none

  -- The answer is whether there is still room afterwards. `dropped` is a `usize` of 64 bits, in a
  -- build without overflow checks.
  unfoldable pub insert_event : String → T → TerminalBuffer T → TerminalBuffer T × Bool
  insert_event id event b =
      let current_len = length b.events in
      let is_full = leb b.capacity current_len in
      let reaches_capacity = leb b.capacity (saturating_add current_len 1) in
      if contains_key id b.events
      then (record b { events = insert id event b.events }, not is_full)
      else if is_full
      then (record b { dropped = (b.dropped + 1) % 2 ^ 64 }, false)
      else (record b { events = insert id event b.events }, not reaches_capacity)

  unfoldable pub take : String → TerminalBuffer T → TerminalBuffer T × Option T
  take id b = (record b { events = remove id b.events }, lookup id b.events)

  unfoldable pub overflowed : TerminalBuffer T → Bool
  overflowed b = leb b.capacity (length b.events) || not (eqb b.dropped 0)

module _ {R T J : Type 0} (id_of : R → String) (terminal : R → T → J) where
  unfoldable pub record_response : R → Watch R T → Watch R T × Option J
  record_response response w =
      let (rest, found) = take (id_of response) w.terminals in
      elim found [
        | some event ↦ (record w { terminals = rest }, some (terminal response event))
        | none ↦ (
          record { pending = insert (id_of response) response w.pending; terminals = rest },
          none,
        )
      ]

  unfoldable pub record_terminal : String → T → Watch R T → Watch R T × TerminalRecord J
  record_terminal id event w = elim (lookup id w.pending) [
    | some response ↦
        (record w { pending = remove id w.pending }, completed (terminal response event))
    | none ↦
        let (after, room) = insert_event id event w.terminals in
        (record w { terminals = after }, if room then buffered else capacity_reached id)
  ]

  answered_first :
      (response : R) (w : Watch R T)
      → lookup (id_of response) w.terminals.events ≡ none
      → record_response response w ≡ (
        record {
          pending = insert (id_of response) response w.pending;
          terminals = (take (id_of response) w.terminals).0;
        },
        none,
      )
  unfolding record_response take
  answered_first response w silent = rw (silent, record_response, take) refl

  ended_first :
      (id : String) (event : T) (w : Watch R T)
      → lookup id w.pending ≡ none
      → lookup id w.terminals.events ≡ none
      → suc (length w.terminals.events) < w.terminals.capacity
      → record_terminal id event w ≡ (
        record w { terminals = record w.terminals { events = insert id event w.terminals.events } },
        buffered,
      )
  unfolding record_terminal insert_event
  ended_first id event w unknown silent room = ground arith

  -- The events of a request that the watch knows nothing of: whichever of its response and its end
  -- comes first, the second one completes the same value, as long as the buffer of ends has room.
  pub record-either_order :
      (response : R) (event : T) (w : Watch R T)
      → lookup (id_of response) w.pending ≡ none
      → lookup (id_of response) w.terminals.events ≡ none
      → suc (length w.terminals.events) < w.terminals.capacity
      → let (answered, nothing) = record_response response w in
        let (ended, first) = record_terminal (id_of response) event w in
        (nothing ≡ none)
        × (first ≡ buffered)
        × ((record_terminal (id_of response) event answered).1
            ≡ completed (terminal response event))
        × ((record_response response ended).1 ≡ some (terminal response event))
  unfolding record_response record_terminal insert_event take
  record-either_order response event w unknown silent room =
      let id = id_of response in
      let answer = answered_first response w silent in
      let end = ended_first id event w unknown silent room in
      let held : lookup id (insert id response w.pending) ≡ some response =
        ground (arith, lookup-insert id id response w.pending, beq_refl id) in
      let noted : lookup id (insert id event w.terminals.events) ≡ some event =
        ground (arith, lookup-insert id id event w.terminals.events, beq_refl id) in
      (
        ap (λ p. p.1) answer,
        ap (λ p. p.1) end,
        ap (λ p. (record_terminal id event p.0).1) answer ∙ rw (held, record_terminal) refl,
        ap (λ p. (record_response response p.0).1) end ∙ rw (noted, record_response, take) refl,
      )

-- A buffer within its capacity, which is a `usize` of 64 bits, stays there at an insert. The answer
-- is whether fewer events are held than the capacity afterwards. The buffer has overflowed
-- afterwards exactly if the answer is no or an event had been dropped before.
pub insert_event-room :
    {T : Type 0} (id : String) (event : T) (b : TerminalBuffer T)
    → length b.events ≤ b.capacity
    → b.capacity < 2 ^ 64
    → let (after, room) = insert_event id event b in
      (length after.events ≤ after.capacity)
      × (room ≡ ltb (length after.events) after.capacity)
      × (overflowed after ≡ (not room || not (eqb b.dropped 0)))
unfolding insert_event overflowed
insert_event-room id event b small bound = ground (arith, length-insert id event b.events)
