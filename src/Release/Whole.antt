-- ===== src/Release/Whole.antt =====
-- packages/shared/src/release.ts: building and verifying, from an input in order to its files.
use mathlib.Core.List.{Memᴰ}
use dash_ota.Base.{
  ◌≤◌, ◌≡◌, refl, sym, ap, ◌∙◌, arith, Bool, true, false, Option, none, some, List, [], ◌∷◌, Text,
  length, ==_iff, All, contains, if_both, subst, if◌then◌else◌, is_empty,
}
use dash_ota.Base.Dict.{Dict, get}
use dash_ota.Manifest.{FileEntry}
use dash_ota.Manifest.Shape.{has_key, check_patches, validate_manifest_shape}
use dash_ota.Providers.{Bytes}
use dash_ota.Release.{
  ArchiveFile, Primitives, ReleaseInput, Release, built, seal_file, sort_files, encryption_of,
  assemble, build_release, sign_manifest, verify_release,
}
use dash_ota.Store.Sessions.{max_safe_integer}
use dash_ota.Release.Building.{AreEntries}
use dash_ota.Release.RoundTrip.{IsLibrary, IsSized, HasNoCollision}
use dash_ota.Release.Verified.{result, release, result-AreEntries, verify_release-release}
use dash_ota.Release.Valid.{
  paths, IsSafe, IsKeyed, IsBuildable, IsPrinter, nothing-AreNew, check_paths-built,
  contains-sort_files, sort_files-IsDistinct, sort_files-All, check_files-AreEntries,
  count_bundles-AreEntries,
}

-- The key that a release is encrypted with.
abbrev pub used_key : Bool → Option Bytes → Option Bytes
used_key encrypt none = none
used_key encrypt (some key) = if encrypt then some key else none

-- Every member of a list has what all have.
pub all-member :
    (P : ArchiveFile → Type 0) (fs : List ArchiveFile)
    → All P fs
    → (f : ArchiveFile) → Memᴰ f fs
    → P f
all-member P [] h f m = elim m [ ]
all-member P (g ∷ fs) (h, hs) f (Memᴰ.head e) = subst P (sym e) h
all-member P (g ∷ fs) (h, hs) f (Memᴰ.tail m) = all-member P fs hs f m

-- The files of a release, which are sorted.
abbrev pub IsFile : Primitives → ReleaseInput → ArchiveFile → Type 0
IsFile p input f = Memᴰ f (sort_files p input.files)

module _ (p : Primitives) (lib : IsLibrary p) (printer : IsPrinter p) (input : ReleaseInput)
    (buildable : IsBuildable p input) where
  used_key-IsSized :
      (key : Option Bytes) → IsKeyed input.encrypt key → IsSized (used_key input.encrypt key)
  used_key-IsSized none keyed = tt
  used_key-IsSized (some key) keyed = if_both IsSized input.encrypt (λ _. keyed) (λ _. tt)

  has_key-used :
      (key : Option Bytes)
      → IsKeyed input.encrypt key
      → has_key (encryption_of p input (used_key input.encrypt key)) ≡ true
  has_key-used none keyed = refl
  has_key-used (some key) keyed =
      if_both (λ k. has_key (encryption_of p input k) ≡ true) input.encrypt
        (λ _. ground (arith, printer.base64 key keyed)) (λ _. refl)

  -- A list with a bundle is described by some entry.
  some_entry :
      (content_key : Option Bytes) (P : ArchiveFile → Type 0) (blobs : Dict Bytes)
      (fs : List ArchiveFile) (es : List FileEntry)
      → contains (paths fs) input.bundle_path ≡ true
      → AreEntries p input content_key P blobs fs es
      → is_empty es ≡ false
  some_entry content_key P blobs [] es has entries = absurd (ground arith)
  some_entry content_key P blobs (f ∷ fs) [] has entries = absurd (ground arith)
  some_entry content_key P blobs (f ∷ fs) (e ∷ es) has entries = refl

  validate_manifest_shape-release :
      (content_key : Option Bytes)
      → IsSized content_key
      → HasNoCollision p input content_key (IsFile p input)
      → has_key (encryption_of p input content_key) ≡ true
      → validate_manifest_shape p.byte_length (release p input content_key).manifest ≡ []
  unfolding validate_manifest_shape check_patches
  validate_manifest_shape-release content_key sized injective keyed =
      let files = sort_files p input.files in
      let member = IsFile p input in
      let blobs = (result p input content_key).1 in
      let entries = (result p input content_key).0 in
      let described = result-AreEntries p input content_key injective in
      let distinct = sort_files-IsDistinct p input.files buildable.distinct in
      let has = contains-sort_files p input.files input.bundle_path ∙ buildable.bundle in
      let checked =
        check_files-AreEntries p printer input content_key sized member blobs 0 [] files entries
          (sort_files-All p (IsSafe p.byte_length) input.files buildable.safe) distinct
          (nothing-AreNew files) described in
      let counted =
        count_bundles-AreEntries p printer input content_key sized member blobs files entries
          distinct described in
      let one = counted ∙ ap (λ b. if b then 1 else 0) has in
      let given = some_entry content_key member blobs files entries has described in
      ground (
        arith, buildable.bundle_id, buildable.runtime_version, buildable.app_id, buildable.key_id,
        buildable.platform, buildable.channel, keyed, checked, one, given,
      )

  assemble-built :
      (content_key : Option Bytes)
      → IsSized content_key
      → HasNoCollision p input content_key (IsFile p input)
      → has_key (encryption_of p input content_key) ≡ true
      → assemble p input content_key ≡ built (release p input content_key)
  unfolding assemble
  assemble-built content_key sized injective keyed =
      ground (arith, validate_manifest_shape-release content_key sized injective keyed)

  build_release-assemble :
      (key : Option Bytes)
      → input.content_key ≡ key
      → IsKeyed input.encrypt key
      → build_release p input ≡ assemble p input (used_key input.encrypt key)
  unfolding build_release
  build_release-assemble none given keyed =
      let (seen, passed, members) =
        check_paths-built p.byte_length [] input.files buildable.safe buildable.distinct
          (nothing-AreNew input.files) in
      let has = members input.bundle_path ∙ buildable.bundle in
      ground (arith, passed, has, given, keyed, buildable.some_file)
  build_release-assemble (some key) given keyed =
      let (seen, passed, members) =
        check_paths-built p.byte_length [] input.files buildable.safe buildable.distinct
          (nothing-AreNew input.files) in
      let has = members input.bundle_path ∙ buildable.bundle in
      ground (arith, passed, has, given, keyed, ==_iff (length key) 32, buildable.some_file)

-- Take libraries as they document themselves: SHA-256 prints 64 hexadecimal digits, AES-GCM under a key of
-- 32 bytes decrypts what it encrypted, zstd frames declare their size and keep their content, base64 reads
-- back what it prints, and signatures of the private key verify under the public key. Take an input in
-- order: safe and distinct paths with the bundle among them, sizes that are safe integers, a key of 32 bytes
-- if it is to be encrypted, and the ids, platform and channel that a manifest needs. Assume that no two of the
-- contents and stored bytes collide under SHA-256, and that files with different contents get blobs with
-- different hashes. Then the release is built, and a device that checks the signed manifest against the
-- stored blobs gets all the files, sorted by path, each with the content that went in.
pub build_release-verifies :
    (p : Primitives) (input : ReleaseInput) (private_key public_key : Text)
    → IsLibrary p
    → IsPrinter p
    → ((m : Bytes) → p.verify_ed25519 public_key m (p.sign_ed25519 private_key m) ≡ true)
    → IsBuildable p input
    → HasNoCollision p input (used_key input.encrypt input.content_key) (IsFile p input)
    → ((f g : ArchiveFile)
        → IsFile p input f
        → IsFile p input g
        → (seal_file p input (used_key input.encrypt input.content_key) f).0.sha256
          ≡ (seal_file p input (used_key input.encrypt input.content_key) g).0.sha256
        → f.content ≡ g.content)
    → (r : Release) × (build_release p input ≡ built r)
      × (verify_release p (sign_manifest p r.manifest private_key) (get r.blobs) public_key
          ≡ built (sort_files p input.files))
build_release-verifies p input private_key public_key lib printer signs buildable injective
      separate =
    let key = used_key input.encrypt input.content_key in
    let sized = used_key-IsSized p lib printer input buildable input.content_key buildable.keyed in
    let small =
      all-member (λ (f : ArchiveFile). length f.content ≤ max_safe_integer)
        (sort_files p input.files)
        (sort_files-All p (λ (f : ArchiveFile). length f.content ≤ max_safe_integer) input.files
          buildable.small) in
    let keyed = has_key-used p lib printer input buildable input.content_key buildable.keyed in
    (
      release p input key,
      build_release-assemble p lib printer input buildable input.content_key refl buildable.keyed
          ∙ assemble-built p lib printer input buildable key sized injective keyed,
      verify_release-release p lib input key sized small injective separate private_key public_key
          signs
          (ap is_empty (
            validate_manifest_shape-release p lib printer input buildable key sized injective
              keyed)),
    )
