-- ===== src/Frames.antt =====
-- src/runtime/frame.rs: the frames of a page, the child sessions that serve some of them, and the
-- attachments of its workers.
pub mod Graph
pub mod Routes
pub mod Links
pub mod Detach
pub mod Changes
pub mod Routing
pub mod Subtree
pub mod Fallback
pub mod Sessions
pub mod Tree
