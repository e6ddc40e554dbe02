-- ===== src/Runtime.antt =====
-- Parts of src/runtime that keep the state of one page or one browser.
pub mod TargetClose
pub mod DownloadStatus
pub mod Dialogs
