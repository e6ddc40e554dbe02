-- ===== src/Examples/Streams.antt =====
-- A hub of src/runtime/event.rs over channels that keep all that they are given.
use browserkit.Common.{
  ℕ, suc, ◌≡◌, refl, true, ◌&&◌, none, List, [], ◌∷◌, ◌++◌, String, arith, eqb, eqb_iff,
  if◌then◌else◌, nat_eq,
}
use browserkit.Common.Assoc.{lookup}
use browserkit.Events.Mpsc.{Mpsc}
use browserkit.Events.Hub.{EventHubState, StreamItem, EventStreamTerminal, scope_closed, subscribe}
use browserkit.Events.Hub.Streams.{
  HubOp, publishes, closes, expected, apply_all, subscribe-received,
}

record Channels (Item : Type 0) : Type 0 where
  pub next : ℕ
  pub log : ℕ → List Item

logged :
    {Item : Type 0} (c j : ℕ) (i : Item) (log : List Item)
    → (if eqb c j then log ++ i ∷ [] else log) ≡ (if eqb c j && true then log ++ i ∷ [] else log)
logged c j i log = ground arith

fresh : {Item : Type 0} (c : ℕ) (log : List Item) → (if eqb c c then [] else log) ≡ []
fresh c log = ground (arith, eqb_iff c c)

abbrev mpsc : {Item : Type 0} → Mpsc (Channels Item) Item
mpsc = record {
  unbounded_channel =
      λ w. (record { next = suc w.next; log = λ j. if eqb j w.next then [] else w.log j }, w.next);
  send = λ c i w. record w { log = λ j. if eqb c j then w.log j ++ i ∷ [] else w.log j };
  accepts = λ c w. true;
  received = λ c w. w.log c;
  received-send = λ c j i w. logged c j i (w.log j);
  accepts-send = λ c j i w. refl;
  received-new = λ w. fresh w.next (w.log w.next);
  accepts-new = λ w. refl;
}

abbrev Item : Type 0
Item = StreamItem String String ℕ String

abbrev empty : Channels Item
empty = record { next = 5; log = λ j. [] }

abbrev terminal : EventStreamTerminal String
terminal = record { reason = scope_closed; browser_error = none }

abbrev ops : List (HubOp String String ℕ String)
ops = publishes "loaded" "page" 10 ∷ closes terminal ∷ publishes "late" "page" 11 ∷ []

abbrev hub : EventHubState String
hub = record { subscribers = (1, 4) ∷ []; next_subscriber_id = 2; next_sequence = 8; closed = none }

subscribe-received_example :
    let (g, v, stream) = subscribe mpsc hub empty in
    mpsc.received stream.1 (apply_all mpsc ops (g, v)).1 ≡ expected 8 ops
subscribe-received_example =
    subscribe-received mpsc ops hub empty refl (unfold lookup in refl) (omega arith)
