-- ===== src/Release/Trust.antt =====
-- packages/shared/src/release.ts, `verifyReleaseV2`: what holds of the files that it returns.
use dash_ota.Base.{
  ◌≡◌, refl, sym, ◌∙◌, arith, true, false, Option, none, some, List, [], ◌∷◌, Text, length, ==_iff,
  eq_iff, ◌⊎◌, All, Option-cases, subst, inl, inr, is_empty,
}
use dash_ota.Base.Dict.{Dict, get, set, get-set}
use dash_ota.Frames.{Unpacked, plain, refused}
use dash_ota.Manifest.{FileEntry, SignedManifest}
use dash_ota.Manifest.Shape.{validate_manifest_shape}
use dash_ota.Providers.{Bytes}
use dash_ota.Release.{
  ArchiveFile, Primitives, VerifyError, Outcome, built, thrown, with_file, open_blob, open_files,
  check_plaintext, unpack, decrypted, key_of, verify_manifest, verify_release,
}
use dash_ota.Release.Checking.{open_files-known, open_files-new}

-- Entries that share a blob promise the same plaintext.
abbrev pub IsConsistent : List FileEntry → Type 0
IsConsistent [] = Unit {0}
IsConsistent (e ∷ es) =
    All
      (λ (e' : FileEntry).
        e.blob.sha256 ≡ e'.blob.sha256 → (e.sha256 ≡ e'.sha256) × (e.size ≡ e'.size))
      es
    × IsConsistent es

Outcome-cases :
    {A : Type 0} (o : Outcome VerifyError A)
    → ((e : VerifyError) × (o ≡ thrown e)) ⊎ ((a : A) × (o ≡ built a))
Outcome-cases (thrown e) = inl (e, refl)
Outcome-cases (built a) = inr (a, refl)

module _ (p : Primitives) where
  -- The content is what the entry promises.
  abbrev pub IsPromised : Bytes → FileEntry → Type 0
  IsPromised content e = (p.sha256_hex content ≡ e.sha256) × (length content ≡ e.size)

  -- The files are the entries' files, one by one.
  abbrev pub ArePromised : List FileEntry → List ArchiveFile → Type 0
  ArePromised [] [] = Unit {0}
  ArePromised (e ∷ es) (f ∷ fs) = (f.path ≡ e.path) × IsPromised f.content e × ArePromised es fs
  ArePromised _ _ = true ≡ false

  abbrev IsHashed : Dict Bytes → List FileEntry → Type 0
  IsHashed cache es =
      All (λ (e : FileEntry). (c : Bytes) → get cache e.blob.sha256 ≡ some c → IsPromised c e) es

  check_plaintext-IsPromised :
      (e : FileEntry) (u : Unpacked) (c : Bytes) → check_plaintext p e u ≡ built c → IsPromised c e
  unfolding check_plaintext
  check_plaintext-IsPromised e (refused error) c opened = absurd (ground arith)
  check_plaintext-IsPromised e (plain content) c opened =
      ground (arith, ==_iff (length content) e.size, eq_iff (p.sha256_hex content) e.sha256)

  unpack-IsPromised :
      (e : FileEntry) (packed : Option Bytes) (c : Bytes)
      → unpack p e packed ≡ built c
      → IsPromised c e
  unpack-IsPromised e none c opened = absurd (ground arith)
  unpack-IsPromised e (some packed) c opened = check_plaintext-IsPromised e _ c opened

  with_file-built :
      (e : FileEntry) (c : Bytes) (o : Outcome VerifyError (List ArchiveFile))
      (files : List ArchiveFile)
      → with_file p e c o ≡ built files
      → (rest : List ArchiveFile) × (o ≡ built rest)
        × (files ≡ record { path = e.path; content = c } ∷ rest)
  with_file-built e c (built rest) files opened = (rest, refl, ground arith)
  with_file-built e c (thrown error) files opened = absurd (ground arith)

  module _ (fetch : Text → Option Bytes) (content_key : Option Bytes) where
    open_blob-IsPromised :
        (e : FileEntry) (fetched : Option Bytes) (c : Bytes)
        → open_blob p content_key e fetched ≡ built c
        → IsPromised c e
    unfolding open_blob
    open_blob-IsPromised e none c opened = absurd (ground arith)
    open_blob-IsPromised e (some stored) c opened =
        unpack-IsPromised e (decrypted p content_key e stored) c (ground arith)

    set-IsHashed :
        (cache : Dict Bytes) (e : FileEntry) (c : Bytes) (es : List FileEntry)
        → IsPromised c e
        → All
            (λ (e' : FileEntry).
              e.blob.sha256 ≡ e'.blob.sha256 → (e.sha256 ≡ e'.sha256) × (e.size ≡ e'.size))
            es
        → IsHashed cache es
        → IsHashed (set cache e.blob.sha256 c) es
    set-IsHashed cache e c [] promised shared hashed = tt
    set-IsHashed cache e c (e' ∷ es) promised (same, shared) (own, hashed) = (
      (λ c' found. ground (
        arith,
        get-set cache e.blob.sha256 e'.blob.sha256 c,
        found,
        eq_iff e.blob.sha256 e'.blob.sha256,
        same,
        own c',
        promised,
      )),
      set-IsHashed cache e c es promised shared hashed,
    )

    open_files-thrown :
        (cache : Dict Bytes) (e : FileEntry) (es : List FileEntry) (error : VerifyError)
        → get cache e.blob.sha256 ≡ none
        → open_blob p content_key e (fetch e.blob.sha256) ≡ thrown error
        → open_files p fetch content_key cache (e ∷ es) ≡ thrown error
    unfolding open_files
    open_files-thrown cache e es error new refuses = ground (arith, new, refuses)

    open_files-ArePromised :
        (cache : Dict Bytes) (es : List FileEntry) (files : List ArchiveFile)
        → IsConsistent es
        → IsHashed cache es
        → open_files p fetch content_key cache es ≡ built files
        → ArePromised es files
    unfolding open_files
    open_files-ArePromised cache [] [] consistent hashed opened = tt
    open_files-ArePromised cache [] (f ∷ files) consistent hashed opened = absurd (ground arith)
    open_files-ArePromised cache (e ∷ es) files (shared, consistent) (own, hashed) opened =
        elim (Option-cases (get cache e.blob.sha256)) [
          | inr (c, old) ↦
              let (rest, more, same) =
                with_file-built e c _ files
                  (sym (open_files-known p fetch content_key cache e es c old) ∙ opened) in
              subst (ArePromised (e ∷ es)) (sym same)
                (refl, own c old, open_files-ArePromised cache es rest consistent hashed more)
          | inl new ↦ elim (Outcome-cases (open_blob p content_key e (fetch e.blob.sha256))) [
            | inl (error, refuses) ↦
                absurd (ground (arith, open_files-thrown cache e es error new refuses, opened))
            | inr (c, opens) ↦
                let promised = open_blob-IsPromised e (fetch e.blob.sha256) c opens in
                let (rest, more, same) =
                  with_file-built e c _ files
                    (sym (open_files-new p fetch content_key cache e es c new opens) ∙ opened) in
                subst (ArePromised (e ∷ es)) (sym same) (
                  refl,
                  promised,
                  open_files-ArePromised (set cache e.blob.sha256 c) es rest consistent
                      (set-IsHashed cache e c es promised shared hashed) more,
                )
          ]
        ]

  empty-IsHashed : (es : List FileEntry) → IsHashed [] es
  unfolding get
  empty-IsHashed [] = tt
  empty-IsHashed (e ∷ es) = ((λ c found. absurd (ground arith)), empty-IsHashed es)

  -- When a release is verified, its signature is right under the key and its manifest has no problem of
  -- shape. If entries that share a blob promise the same plaintext hash and size, the files that are returned
  -- are those of the manifest, in its order, each with the path, the hash and the size that it promises.
  pub verify_release-ArePromised :
      (signed : SignedManifest) (fetch : Text → Option Bytes) (public_key : Text)
      (files : List ArchiveFile)
      → IsConsistent signed.manifest.files
      → verify_release p signed fetch public_key ≡ built files
      → (verify_manifest p signed public_key ≡ true)
        × (is_empty (validate_manifest_shape p.byte_length signed.manifest) ≡ true)
        × ArePromised signed.manifest.files files
  unfolding verify_release
  verify_release-ArePromised signed fetch public_key files consistent verified = (
    ground arith,
    ground arith,
    open_files-ArePromised fetch (key_of p signed.manifest.encryption) [] signed.manifest.files
        files consistent (empty-IsHashed signed.manifest.files) (ground arith),
  )
