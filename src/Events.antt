-- ===== src/Events.antt =====
-- `EventHub` and `TypedEventStream` of src/runtime/event.rs: a scope publishes facts to all of its
-- subscribers and ends each stream with one reason. The hub's mutex is held for each whole method.
pub mod Mpsc
pub mod Hub
