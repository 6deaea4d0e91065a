-- ===== src/Client.antt =====
-- packages/rn/src: the device client. Its configuration (config.ts) and the values that it shares with
-- the native module and the server (types.ts). An absent setting is its default: `enabled`,
-- `auto_stage` and `auto_check_on_launch` are true unless the host says `false`, and
-- `auto_download` says that `mandatory` is not 'announce'. Copy, timers, listeners and storage are not
-- part of the record.
pub mod Policy
pub mod Provider
pub mod Session
use dash_ota.Base.{Bool, Option, Text}
use dash_ota.Base.Int.{ℤ}
use dash_ota.Manifest.{SignedManifest}
use dash_ota.Providers.{NativeVersionPolicy}

pub record OtaConfig : Type 0 where
  pub enabled : Bool
  pub auto_check_on_launch : Bool
  pub auto_stage : Bool
  pub auto_download : Bool
  pub store_url : Option Text

-- `OtaStatus`
pub data OtaStatus : Type 0 where
  idle checking up_to_date update_available downloading apply_pending error disabled : OtaStatus

pub record BundleMeta : Type 0 where
  pub bundle_id : Text
  pub bundle_version : ℤ
  pub runtime_version : Text
  pub is_embedded : Bool
  pub bundle_sha256 : Text

-- `AvailableUpdate`
pub record AvailableUpdate : Type 0 where
  pub bundle_id : Text
  pub bundle_version : ℤ
  pub mandatory : Bool
  pub release_notes : Option Text

-- `CheckResponse` as a device reads it; the policy is absent from older backends.
pub record CheckResponse : Type 0 where
  pub update : Option SignedManifest
  pub download_token : Option Text
  pub server_nonce : Text
  pub native_policy : Option NativeVersionPolicy
