-- ===== src/Tests.antt =====
-- Data for the examples: one release with one blob. The hash of bytes is the identity, the hash of a
-- text is constant, so that every device falls into the rollout.
pub mod Publishing
pub mod Serving
pub mod Devices
pub mod Matching
pub mod Requests
pub mod Parts
pub mod Client
pub mod Session
pub mod Releases
pub mod Uploading
use dash_ota.Base.{Bool, true, false, none, List, [], ◌∷◌, Text, text, ℕ}
use dash_ota.Base.Int.{pos}
use dash_ota.Base.Number.{Number, int, nan}
use dash_ota.Config.{BackendConfig}
use dash_ota.Manifest.{Manifest, SignedManifest, BlobEntry, FileEntry, uncompressed, unencrypted}
use dash_ota.Providers.{Bytes, ReleaseRecord, empty_database, blob_key}
use dash_ota.Providers.Cache.{empty_cache}
use dash_ota.Store.{State}
use dash_ota.Store.Publishing.Histories.{Call, creates, stages, finalizes}
use dash_ota.Targeting.{DeviceContext}

abbrev pub id_hash : Bytes → Text
id_hash bytes = bytes

abbrev pub zero_hash : Text → Text
zero_hash t = text "00000000"

abbrev pub any_order : Text → Text → Bool
any_order a b = true

abbrev pub config : BackendConfig
config = record {
  admin_token = text "secret";
  timestamp_skew_ms = 300;
  download_token_ttl_ms = 1800;
  nonce_ttl_ms = 600;
  auto_pause_rate_num = 1;
  auto_pause_rate_den = 5;
  auto_pause_min_samples = 5;
  max_bundle_bytes = 1000;
  max_blob_bytes = 100;
  enroll_rate_limit = 10;
  check_rate_limit = 2;
  rate_limit_window_ms = 60;
  require_request_signature = true;
  require_enroll_auth = false;
}

abbrev pub content : Bytes
content = 1 ∷ 2 ∷ 3 ∷ []

abbrev pub blob : BlobEntry
blob = record {
  sha256 = content;
  size = 3;
  compression = uncompressed;
  iv_b64 = none;
  tag_b64 = none;
}

abbrev pub bundle : FileEntry
bundle = record {
  path = text "index.bundle";
  is_bundle = true;
  sha256 = content;
  size = 3;
  blob = blob;
}

abbrev pub manifest : Manifest
manifest = record {
  schema = 2;
  protocol = 2;
  bundle_id = text "b1";
  runtime_version = text "r1";
  bundle_version = pos 1;
  platform = text "ios";
  channel = text "main";
  app_id = text "app";
  created_at = text "now";
  mandatory = false;
  min_native_build = none;
  target_app_versions = none;
  encryption = unencrypted;
  files = bundle ∷ [];
  patches = [];
  release_notes = none;
  key_id = text "k";
}

abbrev pub signed : SignedManifest
signed = record { manifest = manifest; signature_b64 = text "sig"; key_id = text "k" }

abbrev pub release : ReleaseRecord
release = record {
  bundle_id = text "b1";
  platform = text "ios";
  channel = text "main";
  runtime_version = text "r1";
  bundle_version = pos 1;
  signed_manifest = signed;
  rollout_percentage = int (pos 100);
  paused = false;
  rolled_back = false;
  created_at = text "now";
  adoption = record { applied = 0; healthy = 0; failed = 0; rolled_back = 0 };
  schema = 2;
  finalized = true;
  total_bytes = 3;
}

-- The upload of the release, its blob in two chunks.
abbrev pub history : List Call
history =
    creates signed (int (pos 100)) (text "now")
    ∷ stages (text "b1") content ((1 ∷ 2 ∷ []) ∷ (3 ∷ []) ∷ []) 100
    ∷ finalizes (text "b1")
    ∷ []

abbrev pub published : State
published = record {
  db = record empty_database { releases = (text "b1", release) ∷ [] };
  blobs = (blob_key content, content) ∷ [];
  cache = empty_cache;
}

abbrev pub device : DeviceContext
device = record {
  platform = text "ios";
  channel = text "main";
  runtime_version = text "r1";
  app_version = text "1.0.0";
  build_number = pos 1;
  current_bundle_version = pos 0;
  install_id = text "i1";
}
