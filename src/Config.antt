-- ===== src/Config.antt =====
-- packages/backend/src/config.ts: the resolved settings that the store and the routes read. The
-- failure rate is the fraction that its decimal literal denotes; times are in milliseconds. Hooks,
-- loggers and the connection strings of other providers are not part of it.
use dash_ota.Base.{ℕ, Bool, Text}

pub record BackendConfig : Type 0 where
  pub admin_token : Text
  pub timestamp_skew_ms : ℕ
  pub download_token_ttl_ms : ℕ
  pub nonce_ttl_ms : ℕ
  pub auto_pause_rate_num : ℕ
  pub auto_pause_rate_den : ℕ
  pub auto_pause_min_samples : ℕ
  pub max_bundle_bytes : ℕ
  pub max_blob_bytes : ℕ
  pub enroll_rate_limit : ℕ
  pub check_rate_limit : ℕ
  pub rate_limit_window_ms : ℕ
  pub require_request_signature : Bool
  pub require_enroll_auth : Bool
