-- ===== src/Daemon/Error.antt =====
-- `ErrorCode` of src/error.rs, as far as the model's operations answer it.
pub data ErrorCode : Type 0 where
  not_connected ref_not_found remote_debug_not_enabled connection_refused : ErrorCode
  browser_not_running browser_not_installed chrome_disconnected session_not_found : ErrorCode
  session_no_tab navigate_failed timeout target_not_found target_already_attached : ErrorCode
  js_error invalid_argument daemon_error file_not_found file_write_failed : ErrorCode
  download_failed selector_not_found session_limit_exceeded tab_limit_exceeded : ErrorCode

-- `Result<T, ErrorCode>`.
pub data Result {ℓ} (A : Type ℓ) : Type ℓ where
  ok : A → Result A
  err : ErrorCode → Result A
