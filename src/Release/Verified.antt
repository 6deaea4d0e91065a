-- ===== src/Release/Verified.antt =====
-- packages/shared/src/release.ts: `verifyReleaseV2` of what `buildReleaseV2` has built.
use mathlib.Core.List.{Memᴰ}
use dash_ota.Base.{
  ◌≤◌, ◌≡◌, refl, ap, ◌∙◌, arith, true, Option, none, some, List, [], ◌∷◌, Text, length, All,
  is_empty,
}
use dash_ota.Base.Dict.{Dict, get}
use dash_ota.Manifest.{FileEntry, Manifest, SignedManifest}
use dash_ota.Manifest.Shape.{validate_manifest_shape}
use dash_ota.Providers.{Bytes}
use dash_ota.Release.{
  ArchiveFile, Primitives, ReleaseInput, Release, built, seal_file, sort_files, add_entries,
  encryption_of, manifest_of, sign_manifest, verify_manifest, key_of, open_files, verify_release,
}
use dash_ota.Store.Sessions.{max_safe_integer}
use dash_ota.Release.Building.{AreEntries, add_entries-AreEntries}
use dash_ota.Release.Checking.{open_files-Opens, empty-IsCoherent}
use dash_ota.Release.RoundTrip.{
  IsLibrary, IsSized, HasNoCollision, Opens-AreEntries, Agree-AreEntries,
}

-- Every member of a list is a member of it.
All-members :
    (fs gs : List ArchiveFile)
    → ((f : ArchiveFile) → Memᴰ f fs → Memᴰ f gs)
    → All (λ f. Memᴰ f gs) fs
All-members [] gs h = tt
All-members (f ∷ fs) gs h = (h f (Memᴰ.head refl), All-members fs gs (λ g m. h g (Memᴰ.tail m)))

module _ (p : Primitives) where
  verify_manifest-sign_manifest :
      IsLibrary p
      → (m : Manifest) (private_key public_key : Text)
      → ((bytes : Bytes)
          → p.verify_ed25519 public_key bytes (p.sign_ed25519 private_key bytes) ≡ true)
      → verify_manifest p (sign_manifest p m private_key) public_key ≡ true
  unfolding verify_manifest sign_manifest
  verify_manifest-sign_manifest lib m private_key public_key signs =
      ap (p.verify_ed25519 public_key (p.canonical_bytes m))
        (lib.base64 (p.sign_ed25519 private_key (p.canonical_bytes m)))
      ∙ signs (p.canonical_bytes m)

  verify_release-checked :
      (signed : SignedManifest) (fetch : Text → Option Bytes) (public_key : Text)
      → verify_manifest p signed public_key ≡ true
      → is_empty (validate_manifest_shape p.byte_length signed.manifest) ≡ true
      → verify_release p signed fetch public_key
        ≡ open_files p fetch (key_of p signed.manifest.encryption) [] signed.manifest.files
  unfolding verify_release
  verify_release-checked signed fetch public_key signed_right valid =
      ground (arith, signed_right, valid)

-- The manifest and the blobs that a release is assembled of.
module _ (p : Primitives) (input : ReleaseInput) (content_key : Option Bytes) where
  abbrev pub result : List FileEntry × Dict Bytes
  result = add_entries p input content_key [] [] (sort_files p input.files)

  abbrev pub release : Release
  release = record { manifest = manifest_of p input content_key result.0; blobs = result.1 }

  -- The loop describes the sorted files.
  pub result-AreEntries :
      HasNoCollision p input content_key (λ f. Memᴰ f (sort_files p input.files))
      → AreEntries p input content_key
          (λ f. Memᴰ f (sort_files p input.files))
          result.1
          (sort_files p input.files)
          result.0
  unfolding get
  result-AreEntries injective =
      let files = sort_files p input.files in
      (add_entries-AreEntries p input content_key (λ f. Memᴰ f files) [] [] files injective
        (All-members files files (λ f m. m)) (λ k stored e. absurd (ground arith))
        (λ k b e. absurd (ground arith))).1

module _ (p : Primitives) (lib : IsLibrary p) (input : ReleaseInput) (content_key : Option Bytes)
    (sized : IsSized content_key)
    (small : (f : ArchiveFile)
      → Memᴰ f (sort_files p input.files)
      → length f.content ≤ max_safe_integer)
    (injective : HasNoCollision p input content_key (λ f. Memᴰ f (sort_files p input.files)))
    (separate : (f g : ArchiveFile)
      → Memᴰ f (sort_files p input.files)
      → Memᴰ g (sort_files p input.files)
      → (seal_file p input content_key f).0.sha256 ≡ (seal_file p input content_key g).0.sha256
      → f.content ≡ g.content) where
  key_of-encryption_of : key_of p (encryption_of p input content_key) ≡ content_key
  key_of-encryption_of = elim content_key as (λ k. key_of p (encryption_of p input k) ≡ k) [
    | none ↦ refl
    | some key ↦ ap some (lib.base64 key)
  ]

  open_files-result :
      open_files p
        (get (result p input content_key).1)
        content_key
        []
        (result p input content_key).0
      ≡ built (sort_files p input.files)
  open_files-result =
      let files = sort_files p input.files in
      let blobs = (result p input content_key).1 in
      let entries = (result p input content_key).0 in
      let described = result-AreEntries p input content_key injective in
      let members = All-members files files (λ f m. m) in
      open_files-Opens p (get blobs) content_key [] files entries
        (Opens-AreEntries p lib input content_key (λ f. Memᴰ f files) sized small injective blobs
          files entries members described)
        (Agree-AreEntries p lib input content_key (λ f. Memᴰ f files) sized small injective separate
          blobs files entries members described)
        (empty-IsCoherent p (get blobs) content_key files entries)

  pub verify_release-release :
      (private_key public_key : Text)
      → ((m : Bytes) → p.verify_ed25519 public_key m (p.sign_ed25519 private_key m) ≡ true)
      → is_empty (validate_manifest_shape p.byte_length (release p input content_key).manifest)
        ≡ true
      → verify_release p
          (sign_manifest p (release p input content_key).manifest private_key)
          (get (release p input content_key).blobs)
          public_key
        ≡ built (sort_files p input.files)
  unfolding sign_manifest
  verify_release-release private_key public_key signs valid =
      verify_release-checked p (sign_manifest p (release p input content_key).manifest private_key)
        (get (release p input content_key).blobs) public_key
        (verify_manifest-sign_manifest p lib (release p input content_key).manifest private_key
          public_key signs)
        valid
      ∙ ap
          (λ key.
            open_files p (get (release p input content_key).blobs) key []
              (release p input content_key).manifest.files)
          key_of-encryption_of
      ∙ open_files-result
