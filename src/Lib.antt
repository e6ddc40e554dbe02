-- ===== src/Lib.antt =====
-- Verification of browserkit, a Rust runtime for Chrome DevTools Protocol (CDP) connections.
--
-- The program has two layers. The runtime (src/runtime) hands out a browser, sessions, pages and
-- frames, each of which is closed under control: a gate admits operations until a close starts, a
-- registry keeps the remote cleanups that are owed, a coordinator runs a close once for all its
-- callers, a report says what was closed, and a hub tells subscribers what happened. The daemon
-- (src/daemon) keeps named sessions of tabs for command line clients: it decides which session a
-- browser target belongs to, limits the tabs of a session, records consoles and dialogs, and marks
-- sessions whose browser is gone.
--
-- Which file models which part:
--   Lifecycle/Gate       `OperationGate` of src/runtime/lifecycle.rs; Gate/Threads its interleavings
--                        with one close task, Gate/Drain what a started close brings about
--   Lifecycle/Version    `PageLifecycle` of src/runtime/lifecycle.rs; Version/Handles later verdicts
--   Lifecycle/Pending    `PendingOwnershipRegistry` of src/runtime/lifecycle.rs; Pending/Errors its
--                        errors, Pending/Tokens what a method does to the cleanups of a token,
--                        Pending/Tasks the interleavings, Pending/Cleanup `cleanup_one`,
--                        `cleanup_all` and `abandon_all`
--   Lifecycle/Notify     what the gate and the registry use of `tokio::sync::Notify`, as an interface;
--                        Gate/Wakeups and Pending/Wakeups the loops that wait on it
--   Lifecycle/Coordinator  `CloseCoordinator` of src/runtime/lifecycle.rs
--   Lifecycle/Report     `CloseReport` of src/runtime/error.rs
--   Events/Hub           `EventHub` of src/runtime/event.rs over the channels of Events/Mpsc
--   Daemon/Session       src/daemon/session.rs
--   Daemon/Targets       src/daemon/target_lifecycle.rs; Targets/Watcher the handlers of its watcher
--   Daemon/Close         src/daemon/target_close.rs
--   Daemon/Dialog        src/daemon/dialog.rs
--   Daemon/Console       src/daemon/console.rs
--   Daemon/State         src/daemon/state.rs; State/Locks its registry of lifecycle locks
--   Daemon/Protocol      `read_request` of src/daemon/protocol.rs
--   Daemon/Persist       src/daemon/persist.rs; Persist/Validate the load and its checks, Persist/Accepted
--                        and Persist/Restored what they are worth, Persist/RoundTrip save and load,
--                        Persist/Disabled the files that are not written over
--   Daemon/Selection     the choice of a tab in src/daemon/handler/common.rs
--   Daemon/NetworkWatch  the pairing of events in src/daemon/handler/network.rs
--   Frames/Graph         `FrameGraph` of src/runtime/frame.rs; Frames/Routes its sessions, Frames/Links
--                        and Frames/Detach the links of the frames, Frames/Changes all events,
--                        Frames/Routing what routes and navigations change
--   Frames/Subtree       `collect_session_subtree` and, in Frames/Fallback, `resolve_live_parent`
--   Frames/Sessions      `FrameState` of src/runtime/frame.rs; Sessions/Contexts its execution contexts,
--                        Sessions/Detaching `detach_child_session`, Sessions/Commit the commit of
--                        `initialize_oopif`, Sessions/Tombstones the attaches that were given up
--   Frames/Tree          `merge_tree` and `index_frame_tree` of src/runtime/frame.rs
--   Runtime/TargetClose  src/runtime/target_close.rs
--   Runtime/DownloadStatus  `DownloadStatus` of src/runtime/download.rs
--   Runtime/Dialogs      `DialogCoordinator` of src/runtime/dialog.rs
--   Page/StateDiff       src/page/state_diff.rs
--   Common               association lists, tests on numbers, equality of keys
--   Examples             concrete states
--
-- How the code is read. A struct is a record, an enum a data type, a `HashMap` or `DashMap` an
-- association list, of which `insert` keeps the place of an old key; a map's order is that of the
-- list, and a theorem holds for each order. A method that holds a lock for its whole body is one
-- function of the state. Where an async function awaits, the state that it finds afterwards is an
-- argument of its own, or the function is cut into a part before and a part after; where a loop
-- awaits (`cleanup_all`, `disconnect_sessions_for_host`), a function `others` says what other tasks do
-- to the state in each gap, and a theorem says what it assumes of it. Interleavings are
-- step relations. A cancellation token and a connection are numbers. The clock is an argument. What a
-- browser answers is an argument. Integers of 64 bits saturate or wrap as in the code built without
-- overflow checks, where
-- `usize` has 64 bits; counts of live objects (permits, entries of a map) are unbounded.
--
-- Fuel: `cleanup_all` takes one unit for each round, and a round of a call that no other task disturbs
-- takes one entry out, so more fuel than entries is enough; a call that others disturb for ever need
-- not end. The recursion of `detach` takes as many units as
-- there are frames, since each call that goes on removes one. The rounds of `collect_session_subtree`
-- are as many as the sessions with a parent, since each round but the last adds one, and the loop of
-- `resolve_live_parent` has one more, since each round visits a new one. The theorems about them hold
-- with that fuel.
--
-- Not modelled: the sockets and the JSON of CDP and of the daemon's protocol, files and processes,
-- the network layer, the waits of a navigation, storage, actions and locators, the command line.
-- Error texts are left out where no decision reads them.
pub mod Common
pub mod Lifecycle
pub mod Daemon
pub mod Events
pub mod Page
pub mod Examples
pub mod Frames
pub mod Runtime
