-- ===== src/Release/Valid.antt =====
-- packages/shared/src/release.ts: `buildReleaseV2` throws nothing for an input in order.
use dash_ota.Base.{
  ℕ, ◌≤◌, suc, ◌≡◌, refl, ap, ◌∙◌, arith, Bool, true, false, ◌||◌, Option, none, some, List, [],
  ◌∷◌, Text, text, length, ◌===◌, eq_iff, All, IsDistinct, contains, if_both, if◌then◌else◌,
  is_empty,
}
use dash_ota.Base.Dict.{Dict}
use dash_ota.Frames.{compress_for_blob}
use dash_ota.Manifest.{Compression, FileEntry}
use dash_ota.Manifest.Shape.{
  for_files, is_encrypted, is_sha256_hex, count_bundles, check_blob, check_file, check_files,
}
use dash_ota.Paths.{validate_path}
use dash_ota.Providers.{Bytes}
use dash_ota.Release.{
  ArchiveFile, Primitives, ReleaseInput, built, seal_blob, seal_file, blob_aad, level_of,
  sort_files, insert_file, encryption_of, check_paths,
}
use dash_ota.Store.Sessions.{max_safe_integer}
use dash_ota.Release.RoundTrip.{IsSized}
use dash_ota.Release.Building.{IsEntry, AreEntries}

abbrev pub paths : List ArchiveFile → List Text
paths [] = []
paths (f ∷ fs) = f.path ∷ paths fs

abbrev pub IsSafe : (Text → ℕ) → ArchiveFile → Type 0
IsSafe byte_length f = validate_path byte_length (some f.path) ≡ none

-- A key where one is needed, of 32 bytes where one is given.
abbrev pub IsKeyed : (encrypt : Bool) → Option Bytes → Type 0
IsKeyed encrypt none = encrypt ≡ false
IsKeyed encrypt (some key) = length key ≡ 32

-- An input in order: its paths are safe and distinct, the bundle is among them, no
-- file is larger than a safe integer, there is a key if it is to
-- be encrypted, and what the manifest names is not empty.
pub record IsBuildable (p : Primitives) (input : ReleaseInput) : Type 0 where
  pub some_file : is_empty input.files ≡ false
  pub safe : All (IsSafe p.byte_length) input.files
  pub distinct : IsDistinct (paths input.files)
  pub bundle : contains (paths input.files) input.bundle_path ≡ true
  pub small : All (λ (f : ArchiveFile). length f.content ≤ max_safe_integer) input.files
  pub keyed : IsKeyed input.encrypt input.content_key
  pub bundle_id : is_empty input.bundle_id ≡ false
  pub runtime_version : is_empty input.runtime_version ≡ false
  pub app_id : is_empty input.app_id ≡ false
  pub key_id : is_empty input.key_id ≡ false
  pub platform : (input.platform === text "ios" || input.platform === text "android") ≡ true
  pub channel :
      (input.channel === text "dev"
        || input.channel === text "uat"
        || input.channel === text "prod")
      ≡ true

-- What the libraries document of the texts that they print.
pub record IsPrinter (p : Primitives) : Type 0 where
  pub hex : (bytes : Bytes) → is_sha256_hex (p.sha256_hex bytes) ≡ true
  pub iv :
      (key plaintext aad : Bytes) (sha : Text)
      → length key ≡ 32
      → is_empty (p.encrypt key plaintext aad (p.derive_blob_iv key sha)).iv_b64 ≡ false
  pub tag :
      (key plaintext aad : Bytes) (sha : Text)
      → length key ≡ 32
      → is_empty (p.encrypt key plaintext aad (p.derive_blob_iv key sha)).tag_b64 ≡ false
  pub base64 : (key : Bytes) → length key ≡ 32 → is_empty (p.to_base64 key) ≡ false

-- The paths that were not seen before, by the tests of the loop.
abbrev pub AreNew : List Text → List ArchiveFile → Type 0
AreNew seen fs = All (λ f. contains seen f.path ≡ false) fs

-- Files of distinct paths stay unseen when another path is seen.
cons-AreNew :
    (seen : List Text) (path : Text) (fs : List ArchiveFile)
    → contains (paths fs) path ≡ false
    → AreNew seen fs
    → AreNew (path ∷ seen) fs
cons-AreNew seen path [] other new = tt
cons-AreNew seen path (f ∷ fs) other (new, rest) = (
  ground (arith, other, new, eq_iff f.path path, eq_iff path f.path),
  cons-AreNew seen path fs (ground arith) rest,
)

pub nothing-AreNew : (fs : List ArchiveFile) → AreNew [] fs
nothing-AreNew [] = tt
nothing-AreNew (f ∷ fs) = (refl, nothing-AreNew fs)

module _ (byte_length : Text → ℕ) where
  -- The paths pass, and all are seen.
  pub check_paths-built :
      (seen : List Text) (fs : List ArchiveFile)
      → All (IsSafe byte_length) fs
      → IsDistinct (paths fs)
      → AreNew seen fs
      → (all_seen : List Text) × (check_paths byte_length seen fs ≡ built all_seen)
        × ((path : Text)
            → contains all_seen path ≡ (contains seen path || contains (paths fs) path))
  unfolding check_paths
  check_paths-built seen [] safe distinct new = (seen, refl, λ path. ground arith)
  check_paths-built seen (f ∷ fs) (safe, all_safe) (other, distinct) (new, all_new) =
      let (all_seen, passed, members) =
        check_paths-built (f.path ∷ seen) fs all_safe distinct
          (cons-AreNew seen f.path fs other all_new) in
      (all_seen, ground (arith, safe, new, passed), λ path. ground (arith, members path))

module _ (p : Primitives) where
  contains-insert_file :
      (f : ArchiveFile) (fs : List ArchiveFile) (path : Text)
      → contains (paths (insert_file p f fs)) path ≡ ((f.path === path) || contains (paths fs) path)
  unfolding insert_file
  contains-insert_file f [] path = refl
  contains-insert_file f (g ∷ fs) path = ground (arith, contains-insert_file f fs path)

  insert_file-IsDistinct :
      (f : ArchiveFile) (fs : List ArchiveFile)
      → contains (paths fs) f.path ≡ false
      → IsDistinct (paths fs)
      → IsDistinct (paths (insert_file p f fs))
  unfolding insert_file
  insert_file-IsDistinct f [] new distinct = (refl, tt)
  insert_file-IsDistinct f (g ∷ fs) new (other, distinct) =
      if_both (λ gs. IsDistinct (paths gs)) (p.locale_le f.path g.path)
        (λ _. (new, (other, distinct)))
        (λ _. (
          ground (
            arith,
            contains-insert_file f fs g.path,
            other,
            new,
            eq_iff f.path g.path,
            eq_iff g.path f.path,
          ),
          insert_file-IsDistinct f fs (ground arith) distinct,
        ))

  insert_file-All :
      (P : ArchiveFile → Type 0) (f : ArchiveFile) (fs : List ArchiveFile)
      → P f
      → All P fs
      → All P (insert_file p f fs)
  unfolding insert_file
  insert_file-All P f [] h hs = (h, tt)
  insert_file-All P f (g ∷ fs) h (k, hs) =
      if_both (All P) (p.locale_le f.path g.path) (λ _. (h, (k, hs)))
        (λ _. (k, insert_file-All P f fs h hs))

  pub contains-sort_files :
      (fs : List ArchiveFile) (path : Text)
      → contains (paths (sort_files p fs)) path ≡ contains (paths fs) path
  unfolding sort_files
  contains-sort_files [] path = refl
  contains-sort_files (f ∷ fs) path =
      contains-insert_file f (sort_files p fs) path
      ∙ ap (λ b. (f.path === path) || b) (contains-sort_files fs path)

  pub sort_files-IsDistinct :
      (fs : List ArchiveFile) → IsDistinct (paths fs) → IsDistinct (paths (sort_files p fs))
  unfolding sort_files
  sort_files-IsDistinct [] distinct = tt
  sort_files-IsDistinct (f ∷ fs) (new, distinct) =
      insert_file-IsDistinct f (sort_files p fs) (contains-sort_files fs f.path ∙ new)
        (sort_files-IsDistinct fs distinct)

  pub sort_files-All :
      (P : ArchiveFile → Type 0) (fs : List ArchiveFile) → All P fs → All P (sort_files p fs)
  unfolding sort_files
  sort_files-All P [] h = tt
  sort_files-All P (f ∷ fs) (h, hs) =
      insert_file-All P f (sort_files p fs) h (sort_files-All P fs hs)

  module _ (printer : IsPrinter p) (input : ReleaseInput) (content_key : Option Bytes)
      (sized : IsSized content_key) (P : ArchiveFile → Type 0) where
    check_blob-seal_blob :
        (key : Option Bytes) (bytes : Bytes) (c : Compression) (sha : Text)
        → IsSized key
        → for_files c ≡ true
        → check_blob
            (is_encrypted (encryption_of p input key))
            for_files
            (seal_blob p bytes c key sha).0
          ≡ []
    unfolding check_blob seal_blob
    check_blob-seal_blob none bytes c sha full allowed = ground (arith, allowed, printer.hex bytes)
    check_blob-seal_blob (some key) bytes c sha full allowed =
        let aad = blob_aad p sha in
        let iv = p.derive_blob_iv key (p.sha256_hex bytes) in
        ground (
          arith,
          allowed,
          printer.hex (p.encrypt key bytes aad iv).ciphertext,
          printer.iv key bytes aad (p.sha256_hex bytes) full,
          printer.tag key bytes aad (p.sha256_hex bytes) full,
        )

    for_files-compress_for_blob :
        (bytes : Bytes) (path : Text) (level : ℕ)
        → for_files (compress_for_blob p.compress bytes path level).compression ≡ true
    unfolding compress_for_blob
    for_files-compress_for_blob bytes path level = ground arith

    check_blob-seal_file :
        (g : ArchiveFile)
        → check_blob
            (is_encrypted (encryption_of p input content_key))
            for_files
            (seal_file p input content_key g).0
          ≡ []
    unfolding seal_file
    check_blob-seal_file g =
        check_blob-seal_blob content_key _ _ _ sized
          (for_files-compress_for_blob g.content g.path (level_of p input content_key g))

    check_file-IsEntry :
        (blobs : Dict Bytes) (seen : List Text) (f : ArchiveFile) (e : FileEntry)
        → IsSafe p.byte_length f
        → contains seen f.path ≡ false
        → IsEntry p input content_key P blobs f e
        → check_file p.byte_length (is_encrypted (encryption_of p input content_key)) seen e ≡ []
    unfolding check_file
    check_file-IsEntry blobs seen f e safe new entry =
        let (g, _, _, sealed, _) = entry.stored in
        let blob =
          ap (check_blob (is_encrypted (encryption_of p input content_key)) for_files) sealed
          ∙ check_blob-seal_file g in
        let hash = ap is_sha256_hex entry.sha256 ∙ printer.hex f.content in
        let passes = ap (λ path. validate_path p.byte_length (some path)) entry.path ∙ safe in
        let unseen = ap (contains seen) entry.path ∙ new in
        ground (arith, blob, hash, passes, unseen)

    pub check_files-AreEntries :
        (blobs : Dict Bytes) (index : ℕ) (seen : List Text) (fs : List ArchiveFile)
        (es : List FileEntry)
        → All (IsSafe p.byte_length) fs
        → IsDistinct (paths fs)
        → AreNew seen fs
        → AreEntries p input content_key P blobs fs es
        → check_files p.byte_length (is_encrypted (encryption_of p input content_key)) index seen es
          ≡ []
    unfolding check_files
    check_files-AreEntries blobs index seen [] [] safe distinct new entries = refl
    check_files-AreEntries blobs index seen [] (e ∷ es) safe distinct new entries =
        absurd (ground arith)
    check_files-AreEntries blobs index seen (f ∷ fs) [] safe distinct new entries =
        absurd (ground arith)
    check_files-AreEntries blobs index seen (f ∷ fs) (e ∷ es) (safe, all_safe) (other, distinct)
          (new, all_new) (entry, entries) =
        let rest =
          check_files-AreEntries blobs (suc index) (f.path ∷ seen) fs es all_safe distinct
            (cons-AreNew seen f.path fs other all_new) entries in
        let own = check_file-IsEntry blobs seen f e safe new entry in
        let passes = ap (λ path. validate_path p.byte_length (some path)) entry.path ∙ safe in
        let unseen = ap (contains seen) entry.path ∙ new in
        ground (arith, own, rest, passes, unseen, entry.path)

    pub count_bundles-AreEntries :
        (blobs : Dict Bytes) (fs : List ArchiveFile) (es : List FileEntry)
        → IsDistinct (paths fs)
        → AreEntries p input content_key P blobs fs es
        → count_bundles es ≡ (if contains (paths fs) input.bundle_path then 1 else 0)
    count_bundles-AreEntries blobs [] [] distinct entries = refl
    count_bundles-AreEntries blobs [] (e ∷ es) distinct entries = absurd (ground arith)
    count_bundles-AreEntries blobs (f ∷ fs) [] distinct entries = absurd (ground arith)
    count_bundles-AreEntries blobs (f ∷ fs) (e ∷ es) (other, distinct) (entry, entries) = ground (
      arith,
      entry.role,
      other,
      eq_iff f.path input.bundle_path,
      count_bundles-AreEntries blobs fs es distinct entries,
    )
