-- ===== src/Manifest/Shape.antt =====
-- packages/shared/src/manifest.ts, `validateManifestShape`, on a value that has the types of `ManifestV2`:
-- the tests of a field's type are not modelled. Messages are data, with the index of the entry.
use dash_ota.Base.{
  ℕ, suc, ◌+◌, Bool, true, false, not, ◌&&◌, ◌||◌, Option, none, some, List, [], ◌∷◌, ◌++◌, Text,
  text, ◌===◌, ◌==◌, leb, length, all, contains, is_empty, if◌then◌else◌,
}
use dash_ota.Manifest.{
  Compression, zstd_patch, BlobEntry, FileEntry, PatchEntry, Encryption, unencrypted, aes_256_gcm,
  Manifest, manifest_schema, ota_protocol,
}
use dash_ota.Paths.{PathError, validate_path}

-- `isSha256Hex`
unfoldable pub is_sha256_hex : Text → Bool
is_sha256_hex t =
    length t == 64 && all (λ c. (leb b'0' c && leb c b'9') || (leb b'a' c && leb c b'f')) t

pub data EntryProblem : Type 0 where
  bad_path : PathError → EntryProblem
  duplicate_path bad_sha256 bad_blob_sha256 bad_compression no_iv no_tag needless_seal :
      EntryProblem

pub data Problem : Type 0 where
  bad_schema bad_protocol no_bundle_id no_runtime_version bad_platform bad_channel no_app_id
        no_key_id no_content_key no_files :
      Problem
  in_file in_patch : (index : ℕ) → EntryProblem → Problem
  bundle_count : (found : ℕ) → Problem

-- `if (!ok) errors.push(problem)`
abbrev pub unless : {A : Type 0} → (ok : Bool) → A → List A
unless ok problem = if ok then [] else problem ∷ []

abbrev pub is_encrypted : Encryption → Bool
is_encrypted unencrypted = false
is_encrypted (aes_256_gcm key) = true

abbrev pub has_key : Encryption → Bool
has_key unencrypted = true
has_key (aes_256_gcm key) = not (is_empty key)

-- `value` as a test: there, and not empty.
abbrev pub is_given : Option Text → Bool
is_given none = false
is_given (some t) = not (is_empty t)

abbrev pub for_files : Compression → Bool
for_files zstd_patch = false
for_files _ = true

abbrev pub for_patches : Compression → Bool
for_patches zstd_patch = true
for_patches _ = false

-- `checkBlob`
unfoldable pub check_blob :
    (encrypted : Bool) → (Compression → Bool) → BlobEntry → List EntryProblem
check_blob encrypted allowed b =
    unless (is_sha256_hex b.sha256) bad_blob_sha256
    ++ unless (allowed b.compression) bad_compression
    ++ unless (not encrypted || is_given b.iv_b64) no_iv
    ++ unless (not encrypted || is_given b.tag_b64) no_tag
    ++ unless (encrypted || not (is_given b.iv_b64 || is_given b.tag_b64)) needless_seal

abbrev label : (EntryProblem → Problem) → List EntryProblem → List Problem
label at [] = []
label at (p ∷ ps) = at p ∷ label at ps

-- The error of a path, and the set `paths` after it.
abbrev pub note_path : List Text → Text → Option PathError → List EntryProblem × List Text
note_path paths path (some error) = (bad_path error ∷ [], paths)
note_path paths path none =
    if contains paths path then (duplicate_path ∷ [], paths) else ([], path ∷ paths)

abbrev pub count_bundles : List FileEntry → ℕ
count_bundles [] = 0
count_bundles (f ∷ fs) = (if f.is_bundle then 1 else 0) + count_bundles fs

unfoldable pub check_patches : (encrypted : Bool) → (index : ℕ) → List PatchEntry → List Problem
unfolding check_blob
check_patches encrypted index [] = []
check_patches encrypted index (p ∷ ps) =
    label (in_patch index)
      (unless (is_sha256_hex p.base_sha256) bad_sha256 ++ check_blob encrypted for_patches p.blob)
    ++ check_patches encrypted (suc index) ps

module _ (byte_length : Text → ℕ) where
  unfoldable pub check_file : (encrypted : Bool) → List Text → FileEntry → List EntryProblem
  unfolding check_blob
  check_file encrypted paths f =
      (note_path paths f.path (validate_path byte_length (some f.path))).0
      ++ unless (is_sha256_hex f.sha256) bad_sha256
      ++ check_blob encrypted for_files f.blob

  unfoldable pub check_files :
      (encrypted : Bool) → (index : ℕ) → List Text → List FileEntry → List Problem
  unfolding check_file
  check_files encrypted index paths [] = []
  check_files encrypted index paths (f ∷ fs) =
      label (in_file index) (check_file encrypted paths f)
      ++ check_files encrypted (suc index)
          (note_path paths f.path (validate_path byte_length (some f.path))).1 fs

  -- `validateManifestShape`
  unfoldable pub validate_manifest_shape : Manifest → List Problem
  unfolding check_files check_patches
  validate_manifest_shape m =
      unless (m.schema == manifest_schema) bad_schema
      ++ unless (m.protocol == ota_protocol) bad_protocol
      ++ unless (not (is_empty m.bundle_id)) no_bundle_id
      ++ unless (not (is_empty m.runtime_version)) no_runtime_version
      ++ unless (m.platform === text "ios" || m.platform === text "android") bad_platform
      ++ unless (m.channel === text "dev" || m.channel === text "uat" || m.channel === text "prod")
          bad_channel
      ++ unless (not (is_empty m.app_id)) no_app_id
      ++ unless (not (is_empty m.key_id)) no_key_id
      ++ unless (has_key m.encryption) no_content_key
      ++ (if is_empty m.files
          then no_files ∷ []
          else (check_files (is_encrypted m.encryption) 0 [] m.files
              ++ unless (count_bundles m.files == 1) (bundle_count (count_bundles m.files))))
      ++ check_patches (is_encrypted m.encryption) 0 m.patches
