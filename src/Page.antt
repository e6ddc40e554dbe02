-- ===== src/Page.antt =====
-- src/page: what the daemon reads off a page.
pub mod StateDiff
