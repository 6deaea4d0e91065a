-- ===== src/Release.antt =====
-- packages/shared/src/release.ts: building a release and checking it as a device does. Hashing,
-- encryption, signatures, base64, zstd, UTF-8 and `localeCompare` are parameters; a decryption or a
-- decompression that throws is `none`. The map of blobs is a dictionary.
pub mod Building
pub mod Checking
pub mod RoundTrip
pub mod Verified
pub mod Valid
pub mod Whole
pub mod Trust
use dash_ota.Base.{
  ℕ, Bool, true, false, not, ◌&&◌, ◌||◌, Option, none, some, List, [], ◌∷◌, Text, text, ◌===◌, ◌==◌,
  length, contains, is_empty, get_or, if◌then◌else◌,
}
use dash_ota.Base.Dict.{Dict, get, set}
use dash_ota.Base.Int.{ℤ}
use dash_ota.Frames.{
  CompressedBlob, FrameError, Unpacked, plain, refused, bundle_compression_level,
  asset_compression_level, compress_for_blob, decompress_blob,
}
use dash_ota.Manifest.{
  Compression, BlobEntry, FileEntry, Encryption, unencrypted, aes_256_gcm, Manifest, SignedManifest,
  manifest_schema, ota_protocol,
}
use dash_ota.Manifest.Shape.{Problem, validate_manifest_shape}
use dash_ota.Paths.{PathError, validate_path}
use dash_ota.Providers.{Bytes}

pub record ArchiveFile : Type 0 where
  pub path : Text
  pub content : Bytes

-- `AesGcmResult`
pub record AesGcmResult : Type 0 where
  pub iv_b64 : Text
  pub ciphertext : Bytes
  pub tag_b64 : Text

-- What the libraries compute.
pub record Primitives : Type 0 where
  pub sha256_hex : Bytes → Text
  pub encrypt : (key plaintext aad iv : Bytes) → AesGcmResult
  pub decrypt :
      (key : Bytes)
      → (iv_b64 : Text) → (ciphertext : Bytes) → (tag_b64 : Text) → (aad : Bytes) → Option Bytes
  pub derive_blob_iv : (key : Bytes) → (sealed_input_sha256 : Text) → Bytes
  pub compress : Bytes → ℕ → Bytes
  pub decompress : Bytes → Option Bytes
  pub utf8 : Text → Bytes
  pub to_base64 : Bytes → Text
  pub of_base64 : Text → Bytes
  pub byte_length : Text → ℕ
  pub locale_le : Text → Text → Bool
  pub canonical_bytes : Manifest → Bytes
  pub sign_ed25519 : (private_key : Text) → Bytes → Bytes
  pub verify_ed25519 : (public_key : Text) → (message signature : Bytes) → Bool

-- `BuildReleaseV2Input`; `created_at` is the time of the call.
pub record ReleaseInput : Type 0 where
  pub bundle_id : Text
  pub runtime_version : Text
  pub bundle_version : ℤ
  pub platform : Text
  pub channel : Text
  pub app_id : Text
  pub created_at : Text
  pub mandatory : Bool
  pub files : List ArchiveFile
  pub bundle_path : Text
  pub key_id : Text
  pub encrypt : Bool
  pub content_key : Option Bytes
  pub bundle_compression_level : Option ℕ
  pub asset_compression_level : Option ℕ
  pub target_app_versions : Option Text
  pub min_native_build : Option ℤ
  pub release_notes : Option Text

-- What `buildReleaseV2` throws.
pub data BuildError : Type 0 where
  no_files no_bundle no_content_key bad_content_key : BuildError
  unsafe_path : (path : Text) → PathError → BuildError
  duplicate_path : (path : Text) → BuildError
  invalid_manifest : List Problem → BuildError

-- What `verifyReleaseV2` throws. `undecryptable` stands for the error of the cipher.
pub data VerifyError : Type 0 where
  bad_signature : VerifyError
  bad_shape : List Problem → VerifyError
  missing_blob wrong_blob_size wrong_blob_hash : (blob_sha256 : Text) → VerifyError
  undecryptable : (blob_sha256 : Text) → VerifyError
  bad_frame : FrameError → VerifyError
  wrong_size wrong_hash : (path : Text) → VerifyError

pub data Outcome {ℓ} (E : Type 0) (A : Type ℓ) : Type ℓ where
  built : A → Outcome E A
  thrown : E → Outcome E A

pub record Release : Type 0 where
  pub manifest : Manifest
  pub blobs : Dict Bytes

-- `if (value)` on an optional text: an empty one counts as absent.
abbrev pub unless_empty : Option Text → Option Text
unless_empty none = none
unless_empty (some t) = if is_empty t then none else some t

-- The checks of the paths, with the set `seenPaths`, and what it ends as.
unfoldable pub check_paths :
    (byte_length : Text → ℕ) → List Text → List ArchiveFile → Outcome BuildError (List Text)
unfolding validate_path
check_paths byte_length seen [] = built seen
check_paths byte_length seen (f ∷ fs) =
    let rest = check_paths byte_length (f.path ∷ seen) fs in
    elim (validate_path byte_length (some f.path)) [
      | some error ↦ thrown (unsafe_path f.path error)
      | none ↦ if contains seen f.path then thrown (duplicate_path f.path) else rest
    ]

module _ (p : Primitives) where
  -- `sort((a, b) => a.path.localeCompare(b.path))`, as insertion that is stable.
  unfoldable pub insert_file : ArchiveFile → List ArchiveFile → List ArchiveFile
  insert_file f [] = f ∷ []
  insert_file f (g ∷ gs) =
      let later = g ∷ insert_file f gs in if p.locale_le f.path g.path then f ∷ g ∷ gs else later

  unfoldable pub sort_files : List ArchiveFile → List ArchiveFile
  unfolding insert_file
  sort_files [] = []
  sort_files (f ∷ fs) = insert_file f (sort_files fs)

  -- `blobAad`
  abbrev pub blob_aad : Text → Bytes
  blob_aad file_sha256 = p.utf8 file_sha256

  -- `sealBlob`: the entry for the manifest, and the bytes to upload.
  unfoldable pub seal_blob :
      Bytes
      → Compression
      → (content_key : Option Bytes) → (plaintext_sha : Text) → BlobEntry × Bytes
  seal_blob bytes compression none plaintext_sha = (
    record {
      sha256 = p.sha256_hex bytes;
      size = length bytes;
      compression = compression;
      iv_b64 = none;
      tag_b64 = none;
    },
    bytes,
  )
  seal_blob bytes compression (some key) plaintext_sha =
      let sealed =
        p.encrypt key bytes (blob_aad plaintext_sha) (p.derive_blob_iv key (p.sha256_hex bytes)) in
      (
        record {
          sha256 = p.sha256_hex sealed.ciphertext;
          size = length sealed.ciphertext;
          compression = compression;
          iv_b64 = some sealed.iv_b64;
          tag_b64 = some sealed.tag_b64;
        },
        sealed.ciphertext,
      )

  module _ (input : ReleaseInput) (content_key : Option Bytes) where
    abbrev pub is_bundle_file : ArchiveFile → Bool
    is_bundle_file f = f.path === input.bundle_path

    abbrev pub level_of : ArchiveFile → ℕ
    level_of f =
        if is_bundle_file f
        then get_or input.bundle_compression_level bundle_compression_level
        else get_or input.asset_compression_level asset_compression_level

    -- A file that is not yet known by its plaintext: its entry and its stored bytes.
    unfoldable pub seal_file : ArchiveFile → BlobEntry × Bytes
    unfolding seal_blob compress_for_blob
    seal_file f =
        let packed = compress_for_blob p.compress f.content f.path (level_of f) in
        seal_blob packed.bytes packed.compression content_key (p.sha256_hex f.content)

    abbrev pub entry_of : ArchiveFile → BlobEntry → FileEntry
    entry_of f blob = record {
      path = f.path;
      is_bundle = is_bundle_file f;
      sha256 = p.sha256_hex f.content;
      size = length f.content;
      blob = blob;
    }

    -- The loop over the sorted files, with `blobByPlaintext` and `blobs`.
    unfoldable pub add_entries :
        (by_plaintext : Dict BlobEntry) (blobs : Dict Bytes)
        → List ArchiveFile
        → List FileEntry × Dict Bytes
    unfolding seal_file
    add_entries by_plaintext blobs [] = ([], blobs)
    add_entries by_plaintext blobs (f ∷ fs) =
        let sha = p.sha256_hex f.content in
        elim (get by_plaintext sha) [
          | some known ↦
              let (entries, blobs') = add_entries by_plaintext blobs fs in
              (entry_of f known ∷ entries, blobs')
          | none ↦
              let (blob, stored) = seal_file f in
              let (entries, blobs') =
                add_entries (set by_plaintext sha blob) (set blobs blob.sha256 stored) fs in
              (entry_of f blob ∷ entries, blobs')
        ]

    abbrev pub encryption_of : Encryption
    encryption_of = elim content_key [
      | none ↦ unencrypted
      | some key ↦ aes_256_gcm (p.to_base64 key)
    ]

    abbrev pub manifest_of : List FileEntry → Manifest
    manifest_of entries = record {
      schema = manifest_schema;
      protocol = ota_protocol;
      bundle_id = input.bundle_id;
      runtime_version = input.runtime_version;
      bundle_version = input.bundle_version;
      platform = input.platform;
      channel = input.channel;
      app_id = input.app_id;
      created_at = input.created_at;
      mandatory = input.mandatory;
      min_native_build = input.min_native_build;
      target_app_versions = unless_empty input.target_app_versions;
      encryption = encryption_of;
      files = entries;
      patches = [];
      release_notes = unless_empty input.release_notes;
      key_id = input.key_id;
    }

    -- The end of `buildReleaseV2`, once its input is checked.
    unfoldable pub assemble : Outcome BuildError Release
    assemble =
        let (entries, blobs) = add_entries [] [] (sort_files input.files) in
        let manifest = manifest_of entries in
        let problems = validate_manifest_shape p.byte_length manifest in
        if is_empty problems
        then built (record { manifest = manifest; blobs = blobs })
        else thrown (invalid_manifest problems)

  -- `buildReleaseV2`
  unfoldable pub build_release : ReleaseInput → Outcome BuildError Release
  build_release input =
      if is_empty input.files
      then thrown no_files
      else elim (check_paths p.byte_length [] input.files) [
        | thrown error ↦ thrown error
        | built seen ↦
            if not (contains seen input.bundle_path)
            then thrown no_bundle
            else elim input.content_key [
              | none ↦ if input.encrypt then thrown no_content_key else assemble input none
              | some key ↦
                  if not (length key == 32)
                  then thrown bad_content_key
                  else assemble input (if input.encrypt then some key else none)
            ]
      ]

  -- `signManifest` and `verifyManifest`
  unfoldable pub sign_manifest : Manifest → (private_key : Text) → SignedManifest
  sign_manifest m private_key = record {
    manifest = m;
    signature_b64 = p.to_base64 (p.sign_ed25519 private_key (p.canonical_bytes m));
    key_id = m.key_id;
  }

  unfoldable pub verify_manifest : SignedManifest → (public_key : Text) → Bool
  verify_manifest signed public_key =
      p.verify_ed25519 public_key (p.canonical_bytes signed.manifest)
        (p.of_base64 signed.signature_b64)

  abbrev pub key_of : Encryption → Option Bytes
  key_of unencrypted = none
  key_of (aes_256_gcm key) = some (p.of_base64 key)

  -- The stored bytes of a blob, less their encryption.
  abbrev pub decrypted : (content_key : Option Bytes) → FileEntry → Bytes → Option Bytes
  decrypted none entry stored = some stored
  decrypted (some key) entry stored =
      p.decrypt key (get_or entry.blob.iv_b64 []) stored (get_or entry.blob.tag_b64 [])
        (blob_aad entry.sha256)

  -- The two checks of the plaintext.
  unfoldable pub check_plaintext : FileEntry → Unpacked → Outcome VerifyError Bytes
  check_plaintext entry (refused error) = thrown (bad_frame error)
  check_plaintext entry (plain content) =
      if not (length content == entry.size)
      then thrown (wrong_size entry.path)
      else if p.sha256_hex content === entry.sha256
      then built content
      else thrown (wrong_hash entry.path)

  abbrev pub unpack : FileEntry → Option Bytes → Outcome VerifyError Bytes
  unpack entry none = thrown (undecryptable entry.blob.sha256)
  unpack entry (some compressed) =
      check_plaintext entry
        (decompress_blob p.decompress compressed entry.blob.compression entry.size)

  -- What the loop does with a blob that it has not seen.
  unfoldable pub open_blob :
      (content_key : Option Bytes) → FileEntry → Option Bytes → Outcome VerifyError Bytes
  unfolding check_plaintext decompress_blob
  open_blob content_key entry none = thrown (missing_blob entry.blob.sha256)
  open_blob content_key entry (some stored) =
      if not (length stored == entry.blob.size)
      then thrown (wrong_blob_size entry.blob.sha256)
      else if not (p.sha256_hex stored === entry.blob.sha256)
      then thrown (wrong_blob_hash entry.blob.sha256)
      else unpack entry (decrypted content_key entry stored)

  abbrev pub with_file :
      FileEntry
      → Bytes
      → Outcome VerifyError (List ArchiveFile)
      → Outcome VerifyError (List ArchiveFile)
  with_file entry content (built files) =
      built (record { path = entry.path; content = content } ∷ files)
  with_file entry content (thrown error) = thrown error

  -- The loop, with `plaintextCache`.
  unfoldable pub open_files :
      (fetch : Text → Option Bytes) (content_key : Option Bytes) (cache : Dict Bytes)
      → List FileEntry
      → Outcome VerifyError (List ArchiveFile)
  unfolding open_blob
  open_files fetch content_key cache [] = built []
  open_files fetch content_key cache (entry ∷ entries) = elim (get cache entry.blob.sha256) [
    | some content ↦ with_file entry content (open_files fetch content_key cache entries)
    | none ↦ elim (open_blob content_key entry (fetch entry.blob.sha256)) [
      | thrown error ↦ thrown error
      | built content ↦
          with_file entry content
            (open_files fetch content_key (set cache entry.blob.sha256 content) entries)
    ]
  ]

  -- `verifyReleaseV2`; `fetch` answers the stored bytes of a blob, if there are any.
  unfoldable pub verify_release :
      SignedManifest
      → (fetch : Text → Option Bytes) (public_key : Text) → Outcome VerifyError (List ArchiveFile)
  verify_release signed fetch public_key =
      let problems = validate_manifest_shape p.byte_length signed.manifest in
      if not (verify_manifest signed public_key)
      then thrown bad_signature
      else if not (is_empty problems)
      then thrown (bad_shape problems)
      else open_files fetch (key_of signed.manifest.encryption) [] signed.manifest.files
