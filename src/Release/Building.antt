-- ===== src/Release/Building.antt =====
-- packages/shared/src/release.ts, `buildReleaseV2`: what the loop over the files leaves.
use dash_ota.Base.{
  ◌≡◌, refl, sym, ◌∙◌, arith, true, false, Option, none, some, List, [], ◌∷◌, Text, length, ◌===◌,
  eq_iff, All, Option-cases, Bool-cases, ◌⊎◌, subst, inl, inr,
}
use dash_ota.Base.Dict.{Dict, get, set, get-set}
use dash_ota.Manifest.{Compression, BlobEntry, FileEntry}
use dash_ota.Providers.{Bytes}
use dash_ota.Release.{
  ArchiveFile, Primitives, ReleaseInput, seal_blob, seal_file, is_bundle_file, entry_of,
  add_entries,
}

-- The stored bytes lie under their hash, and are known.
abbrev pub IsAddressed : (Bytes → Text) → (Bytes → Type 0) → Dict Bytes → Type 0
IsAddressed hash Known blobs =
    (k : Text) (stored : Bytes) → get blobs k ≡ some stored → (hash stored ≡ k) × Known stored

-- What lies in one map lies in the other.
abbrev pub IsWithin : Dict Bytes → Dict Bytes → Type 0
IsWithin blobs more =
    (k : Text) (stored : Bytes) → get blobs k ≡ some stored → get more k ≡ some stored

module _ (hash : Bytes → Text) (Known : Bytes → Type 0)
    (injective : (a b : Bytes) → Known a → Known b → hash a ≡ hash b → a ≡ b) where
  set-IsAddressed :
      (blobs : Dict Bytes) (key : Text) (stored : Bytes)
      → key ≡ hash stored
      → Known stored
      → IsAddressed hash Known blobs
      → IsAddressed hash Known (set blobs key stored)
  set-IsAddressed blobs key stored own known addressed k found e =
      let at = sym (get-set blobs key k stored) ∙ e in
      elim (Bool-cases (key === k)) [
        | inl here ↦
            let same : stored ≡ found = ground (arith, here, at) in
            (ground (arith, own, here, same, eq_iff key k), subst Known same known)
        | inr there ↦ addressed k found (ground (arith, there, at))
      ]

  set-IsWithin :
      (blobs : Dict Bytes) (key : Text) (stored : Bytes)
      → key ≡ hash stored
      → Known stored
      → IsAddressed hash Known blobs
      → IsWithin blobs (set blobs key stored)
  set-IsWithin blobs key stored own known addressed k found e =
      let (hashed, known') = addressed k found e in
      ground (
        arith,
        own,
        get-set blobs key k stored,
        e,
        eq_iff key k,
        hashed,
        injective stored found known known',
      )

module _ (p : Primitives) (input : ReleaseInput) (content_key : Option Bytes)
    (P : ArchiveFile → Type 0) where
  -- The bytes that are hashed: the contents of files, and what is stored for them.
  abbrev pub IsKnown : Bytes → Type 0
  IsKnown bytes =
      (f : ArchiveFile) × P f
      × ((bytes ≡ f.content) ⊎ (bytes ≡ (seal_file p input content_key f).1))

  -- A known entry is that of a file with the plaintext, and its bytes are stored.
  abbrev pub IsStored : Dict Bytes → Text → BlobEntry → Type 0
  IsStored blobs plaintext_sha b =
      (g : ArchiveFile) × P g
      × (p.sha256_hex g.content ≡ plaintext_sha)
      × (b ≡ (seal_file p input content_key g).0)
      × (get blobs b.sha256 ≡ some (seal_file p input content_key g).1)

  abbrev pub AreStored : Dict BlobEntry → Dict Bytes → Type 0
  AreStored by_plaintext blobs =
      (k : Text) (b : BlobEntry) → get by_plaintext k ≡ some b → IsStored blobs k b

  -- An entry describes the file, and its blob is stored.
  pub record IsEntry (blobs : Dict Bytes) (f : ArchiveFile) (e : FileEntry) : Type 0 where
    pub path : e.path ≡ f.path
    pub role : e.is_bundle ≡ is_bundle_file p input content_key f
    pub sha256 : e.sha256 ≡ p.sha256_hex f.content
    pub size : e.size ≡ length f.content
    pub stored : IsStored blobs (p.sha256_hex f.content) e.blob

  abbrev pub AreEntries : Dict Bytes → List ArchiveFile → List FileEntry → Type 0
  AreEntries blobs [] [] = Unit {0}
  AreEntries blobs (f ∷ fs) (e ∷ es) = IsEntry blobs f e × AreEntries blobs fs es
  AreEntries blobs _ _ = true ≡ false

  more-IsStored :
      (blobs more : Dict Bytes) (sha : Text) (b : BlobEntry)
      → IsWithin blobs more
      → IsStored blobs sha b
      → IsStored more sha b
  more-IsStored blobs more sha b within (g, known, same, sealed, found) =
      (g, known, same, sealed, within b.sha256 _ found)

  sha256-seal_blob :
      (bytes : Bytes) (c : Compression) (key : Option Bytes) (sha : Text)
      → (seal_blob p bytes c key sha).0.sha256 ≡ p.sha256_hex (seal_blob p bytes c key sha).1
  unfolding seal_blob
  sha256-seal_blob bytes c none sha = refl
  sha256-seal_blob bytes c (some key) sha = refl

  sha256-seal_file :
      (f : ArchiveFile)
      → (seal_file p input content_key f).0.sha256
        ≡ p.sha256_hex (seal_file p input content_key f).1
  unfolding seal_file
  sha256-seal_file f = sha256-seal_blob _ _ content_key _

  set-AreStored :
      (by_plaintext : Dict BlobEntry) (blobs : Dict Bytes) (f : ArchiveFile)
      → ((a b : Bytes) → IsKnown a → IsKnown b → p.sha256_hex a ≡ p.sha256_hex b → a ≡ b)
      → P f
      → IsAddressed p.sha256_hex IsKnown blobs
      → AreStored by_plaintext blobs
      → AreStored
          (set by_plaintext (p.sha256_hex f.content) (seal_file p input content_key f).0)
          (set blobs (seal_file p input content_key f).0.sha256 (seal_file p input content_key f).1)
  set-AreStored by_plaintext blobs f injective known addressed stored k b e =
      let sha = p.sha256_hex f.content in
      let sealed = seal_file p input content_key f in
      let found = sym (get-set by_plaintext sha k sealed.0) ∙ e in
      elim (Bool-cases (sha === k)) [
        | inl here ↦
            let same : sealed.0 ≡ b = ground (arith, here, found) in
            (
              f,
              known,
              (eq_iff sha k).0 here,
              sym same,
              subst
                  (λ (x : BlobEntry).
                    get (set blobs sealed.0.sha256 sealed.1) x.sha256 ≡ some sealed.1)
                  same
                  (ground (
                    arith,
                    get-set blobs sealed.0.sha256 sealed.0.sha256 sealed.1,
                    eq_iff sealed.0.sha256 sealed.0.sha256,
                  )),
            )
        | inr there ↦
            more-IsStored blobs (set blobs sealed.0.sha256 sealed.1) k b
              (set-IsWithin p.sha256_hex IsKnown injective blobs sealed.0.sha256 sealed.1
                (sha256-seal_file f) (f, known, inr refl) addressed)
              (stored k b (ground (arith, there, found)))
      ]

  IsWithin-trans : (a b c : Dict Bytes) → IsWithin a b → IsWithin b c → IsWithin a c
  IsWithin-trans a b c h k key found e = k key found (h key found e)

  -- The two cases of the loop.
  add_entries-known :
      (by_plaintext : Dict BlobEntry) (blobs : Dict Bytes) (f : ArchiveFile) (fs : List ArchiveFile)
      (b : BlobEntry)
      → get by_plaintext (p.sha256_hex f.content) ≡ some b
      → add_entries p input content_key by_plaintext blobs (f ∷ fs) ≡ (
        entry_of p input content_key f b
            ∷ (add_entries p input content_key by_plaintext blobs fs).0,
        (add_entries p input content_key by_plaintext blobs fs).1,
      )
  unfolding add_entries
  add_entries-known by_plaintext blobs f fs b old = ground (arith, old)

  add_entries-new :
      (by_plaintext : Dict BlobEntry) (blobs : Dict Bytes) (f : ArchiveFile) (fs : List ArchiveFile)
      → get by_plaintext (p.sha256_hex f.content) ≡ none
      → add_entries p input content_key by_plaintext blobs (f ∷ fs) ≡ (
        entry_of p input content_key f (seal_file p input content_key f).0
            ∷ (add_entries p input content_key
                (set by_plaintext (p.sha256_hex f.content) (seal_file p input content_key f).0)
                (set blobs
                  (seal_file p input content_key f).0.sha256
                  (seal_file p input content_key f).1)
                fs).0,
        (add_entries p input content_key
            (set by_plaintext (p.sha256_hex f.content) (seal_file p input content_key f).0)
            (set blobs
              (seal_file p input content_key f).0.sha256
              (seal_file p input content_key f).1)
            fs).1,
      )
  unfolding add_entries
  add_entries-new by_plaintext blobs f fs new = ground (arith, new)

  pub add_entries-AreEntries :
      (by_plaintext : Dict BlobEntry) (blobs : Dict Bytes) (fs : List ArchiveFile)
      → ((a b : Bytes) → IsKnown a → IsKnown b → p.sha256_hex a ≡ p.sha256_hex b → a ≡ b)
      → All P fs
      → IsAddressed p.sha256_hex IsKnown blobs
      → AreStored by_plaintext blobs
      → IsWithin blobs (add_entries p input content_key by_plaintext blobs fs).1
        × AreEntries
            (add_entries p input content_key by_plaintext blobs fs).1
            fs
            (add_entries p input content_key by_plaintext blobs fs).0
  unfolding add_entries
  add_entries-AreEntries by_plaintext blobs [] injective known addressed stored =
      ((λ k found e. e), tt)
  add_entries-AreEntries by_plaintext blobs (f ∷ fs) injective (known, all_known) addressed stored =
      let sha = p.sha256_hex f.content in
      let sealed = seal_file p input content_key f in
      let Goal : List FileEntry × Dict Bytes → Type 0 =
        λ r. IsWithin blobs r.1 × AreEntries r.1 (f ∷ fs) r.0 in
      elim (Option-cases (get by_plaintext sha)) [
        | inl new ↦
            let blobs' = set blobs sealed.0.sha256 sealed.1 in
            let by_plaintext' = set by_plaintext sha sealed.0 in
            let more = add_entries p input content_key by_plaintext' blobs' fs in
            let stored' = set-AreStored by_plaintext blobs f injective known addressed stored in
            let (within, entries) =
              add_entries-AreEntries by_plaintext' blobs' fs injective all_known
                (set-IsAddressed p.sha256_hex IsKnown injective blobs sealed.0.sha256 sealed.1
                  (sha256-seal_file f) (f, known, inr refl) addressed)
                stored' in
            let before =
              set-IsWithin p.sha256_hex IsKnown injective blobs sealed.0.sha256 sealed.1
                (sha256-seal_file f) (f, known, inr refl) addressed in
            let own =
              stored' sha sealed.0
                (ground (arith, get-set by_plaintext sha sha sealed.0, eq_iff sha sha)) in
            subst Goal (sym (add_entries-new by_plaintext blobs f fs new)) (
              IsWithin-trans blobs blobs' more.1 before within,
              (
                record {
                  path = refl;
                  role = refl;
                  sha256 = refl;
                  size = refl;
                  stored = more-IsStored blobs' more.1 sha sealed.0 within own;
                },
                entries,
              ),
            )
        | inr (b, old) ↦
            let more = add_entries p input content_key by_plaintext blobs fs in
            let (within, entries) =
              add_entries-AreEntries by_plaintext blobs fs injective all_known addressed stored in
            subst Goal (sym (add_entries-known by_plaintext blobs f fs b old)) (
              within,
              (
                record {
                  path = refl;
                  role = refl;
                  sha256 = refl;
                  size = refl;
                  stored = more-IsStored blobs more.1 sha b within (stored sha b old);
                },
                entries,
              ),
            )
      ]
