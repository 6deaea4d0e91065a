-- ===== src/Providers.antt =====
-- packages/backend/src/providers.ts: the records that the backend stores and its default providers,
-- the disk database as its in-memory maps, the disk blob store as a map from keys to bytes, and the
-- in-memory cache. Writing the maps to JSON files is not modelled. Times are in milliseconds.
pub mod Cache
use dash_ota.Base.{
  ℕ, ◌+◌, Bool, Option, none, some, List, [], Text, text, ◌++◌, length, get_or, if◌then◌else◌,
}
use dash_ota.Base.Dict.{Dict, get, set, delete, values}
use dash_ota.Base.Int.{ℤ}
use dash_ota.Base.Number.{Number}
use dash_ota.Manifest.{SignedManifest}

pub record AdoptionStats : Type 0 where
  pub applied : ℕ
  pub healthy : ℕ
  pub failed : ℕ
  pub rolled_back : ℕ

pub record ReleaseRecord : Type 0 where
  pub bundle_id : Text
  pub platform : Text
  pub channel : Text
  pub runtime_version : Text
  pub bundle_version : ℤ
  pub signed_manifest : SignedManifest
  pub rollout_percentage : Number
  pub paused : Bool
  pub rolled_back : Bool
  pub created_at : Text
  pub adoption : AdoptionStats
  pub schema : ℕ
  pub finalized : Bool
  pub total_bytes : ℕ

pub record InstallRecord : Type 0 where
  pub install_id : Text
  pub device_public_key_b64 : Text
  pub platform : Text
  pub channel : Text
  pub created_at : Text

-- packages/shared/src/protocol.ts, `NativePolicySeverity` and `NativeVersionPolicy`.
-- The severity is named apart from `Option`'s `none`.
pub data Severity : Type 0 where
  fine soft hard : Severity

pub record NativeVersionPolicy : Type 0 where
  pub min_supported_native_version : ℤ
  pub severity : Severity
  pub store_url : Option Text

-- `DiskDatabaseProvider`
pub record Database : Type 0 where
  pub releases : Dict ReleaseRecord
  pub installs : Dict InstallRecord
  pub trusted_keys : Dict Text
  pub native_policies : Dict NativeVersionPolicy
  pub retired_clients : Dict ℕ

abbrev pub empty_database : Database
empty_database = record {
  releases = [];
  installs = [];
  trusted_keys = [];
  native_policies = [];
  retired_clients = [];
}

module _ (db : Database) where
  abbrev pub get_release : Text → Option ReleaseRecord
  get_release bundle_id = get db.releases bundle_id

  abbrev pub list_releases : List ReleaseRecord
  list_releases = values db.releases

  abbrev pub put_release : ReleaseRecord → Database
  put_release r = record db { releases = set db.releases r.bundle_id r }

  abbrev pub get_install : Text → Option InstallRecord
  get_install install_id = get db.installs install_id

  abbrev pub put_install : InstallRecord → Database
  put_install r = record db { installs = set db.installs r.install_id r }

  abbrev pub get_trusted_key : Text → Option Text
  get_trusted_key key_id = get db.trusted_keys key_id

  abbrev pub put_trusted_key : Text → Text → Database
  put_trusted_key key_id key = record db { trusted_keys = set db.trusted_keys key_id key }

  abbrev pub get_native_policy : Text → Option NativeVersionPolicy
  get_native_policy channel = get db.native_policies channel

  abbrev pub put_native_policy : Text → NativeVersionPolicy → Database
  put_native_policy channel policy = record db {
    native_policies = set db.native_policies channel policy;
  }

  -- `${channel}/${platform}`
  abbrev pub increment_retired_client : Text → Text → Database
  increment_retired_client channel platform =
      let key = channel ++ (text "/" ++ platform) in
      record db {
        retired_clients = set db.retired_clients key (get_or (get db.retired_clients key) 0 + 1);
      }

-- `DiskBlobStore`: the stored bytes by key.
abbrev pub Bytes : Type 0
Bytes = List ℕ

abbrev pub BlobStore : Type 0
BlobStore = Dict Bytes

-- `blobKey`
unfoldable pub blob_key : Text → Text
blob_key blob_sha256 = text "blobs/" ++ blob_sha256

-- `stat`, which reports the size.
abbrev pub stat : BlobStore → Text → Option ℕ
stat blobs key = elim (get blobs key) [ none ↦ none | some bytes ↦ some (length bytes) ]

abbrev pub put_blob : BlobStore → Text → Bytes → BlobStore
put_blob blobs key bytes = set blobs key bytes

abbrev pub delete_blob : BlobStore → Text → BlobStore
delete_blob blobs key = delete blobs key
