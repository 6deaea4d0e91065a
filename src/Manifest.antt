-- ===== src/Manifest.antt =====
-- packages/shared/src/manifest.ts: the signed manifest as the typed record that the program reads
-- once its shape has been checked, and the queries over the blobs that it references.
-- `schema` and `protocol` are natural numbers; versions and build numbers are integers.
pub mod Blobs
pub mod Shape
use dash_ota.Base.{
  ℕ, Bool, Option, none, some, List, [], ◌∷◌, ◌++◌, map, Text, text, ◌===◌, set_add, is_some, find?,
  ◌+◌, if◌then◌else◌,
}
use dash_ota.Base.Dict.{Dict, set, values}
use dash_ota.Base.Int.{ℤ}

-- `BlobCompressionName` and `PatchCompression`.
pub data Compression : Type 0 where
  zstd uncompressed zstd_patch : Compression

pub record BlobEntry : Type 0 where
  pub sha256 : Text
  pub size : ℕ
  pub compression : Compression
  pub iv_b64 : Option Text
  pub tag_b64 : Option Text

-- `is_bundle` says that `role` is "bundle", its only value.
pub record FileEntry : Type 0 where
  pub path : Text
  pub is_bundle : Bool
  pub sha256 : Text
  pub size : ℕ
  pub blob : BlobEntry

pub record PatchEntry : Type 0 where
  pub base_sha256 : Text
  pub blob : BlobEntry

pub data Encryption : Type 0 where
  unencrypted : Encryption
  aes_256_gcm : (content_key_b64 : Text) → Encryption

pub record Manifest : Type 0 where
  pub schema : ℕ
  pub protocol : ℕ
  pub bundle_id : Text
  pub runtime_version : Text
  pub bundle_version : ℤ
  pub platform : Text
  pub channel : Text
  pub app_id : Text
  pub created_at : Text
  pub mandatory : Bool
  pub min_native_build : Option ℤ
  pub target_app_versions : Option Text
  pub encryption : Encryption
  pub files : List FileEntry
  pub patches : List PatchEntry
  pub release_notes : Option Text
  pub key_id : Text

pub record SignedManifest : Type 0 where
  pub manifest : Manifest
  pub signature_b64 : Text
  pub key_id : Text

abbrev pub manifest_schema : ℕ
manifest_schema = 2

abbrev pub ota_protocol : ℕ
ota_protocol = 2

-- `bundleEntry`
pub bundle_entry : Manifest → Option FileEntry
bundle_entry m = find? (λ f. f.is_bundle) m.files

-- `a?.blob ?? b?.blob`
abbrev first_blob : Option FileEntry → Option PatchEntry → Option BlobEntry
first_blob (some f) p = some f.blob
first_blob none (some p) = some p.blob
first_blob none none = none

-- `findBlobEntry`
unfoldable pub find_blob_entry : Manifest → Text → Option BlobEntry
find_blob_entry m blob_sha256 =
    first_blob (find? (λ f. f.blob.sha256 === blob_sha256) m.files)
      (find? (λ p. p.blob.sha256 === blob_sha256) m.patches)

abbrev pub add_files : List Text → List FileEntry → List Text
add_files seen [] = seen
add_files seen (f ∷ fs) = add_files (set_add seen f.blob.sha256) fs

abbrev pub add_patches : List Text → List PatchEntry → List Text
add_patches seen [] = seen
add_patches seen (p ∷ ps) = add_patches (set_add seen p.blob.sha256) ps

-- `collectBlobShas`
unfoldable pub collect_blob_shas : Manifest → List Text
collect_blob_shas m = add_patches (add_files [] m.files) m.patches

abbrev pub size_files : Dict ℕ → List FileEntry → Dict ℕ
size_files seen [] = seen
size_files seen (f ∷ fs) = size_files (set seen f.blob.sha256 f.blob.size) fs

abbrev pub size_patches : Dict ℕ → List PatchEntry → Dict ℕ
size_patches seen [] = seen
size_patches seen (p ∷ ps) = size_patches (set seen p.blob.sha256 p.blob.size) ps

-- `reduce((sum, n) => sum + n, 0)`
abbrev pub sum_from : ℕ → List ℕ → ℕ
sum_from sum [] = sum
sum_from sum (n ∷ ns) = sum_from (sum + n) ns

-- `totalBlobBytes`
unfoldable pub total_blob_bytes : Manifest → ℕ
total_blob_bytes m = sum_from 0 (values (size_patches (size_files [] m.files) m.patches))
