-- ===== src/Examples.antt =====
-- The theorems at concrete states of the daemon, the runtime and the page.
pub mod Fixtures
pub mod Closing
pub mod Cleanups
pub mod Streams
pub mod Wakes
pub mod Requests
pub mod Tabs
pub mod Dialogs
pub mod Pages
pub mod Frames
pub mod ChildSessions
pub mod StateFiles
pub mod Answers
