-- ===== src/Release/RoundTrip.antt =====
-- packages/shared/src/release.ts: a release that was built is verified, and gives back its files.
use dash_ota.Base.{
  ℕ, ◌≤◌, ◌≡◌, refl, sym, ap, ◌∙◌, arith, Option, none, some, List, [], ◌∷◌, Text, length, ==_iff,
  eq_iff, All, inl, get_or,
}
use dash_ota.Base.Dict.{Dict, get}
use dash_ota.Frames.{plain, compress_for_blob, decompress_blob}
use dash_ota.Frames.Unpacking.{IsZstd, decompress_blob-compress_for_blob}
use dash_ota.Manifest.{BlobEntry, FileEntry}
use dash_ota.Providers.{Bytes}
use dash_ota.Release.{
  ArchiveFile, Primitives, ReleaseInput, built, seal_blob, seal_file, level_of, open_blob,
  check_plaintext, unpack, decrypted, blob_aad,
}
use dash_ota.Store.Sessions.{max_safe_integer}
use dash_ota.Release.Building.{IsKnown, IsEntry, AreEntries}
use dash_ota.Release.Checking.{Opens, Agree, Agrees}

-- What the libraries document: a ciphertext decrypts to its plaintext under the key, the data and the
-- vector that it was made with; zstd frames declare and keep their content; base64 reads what it prints.
pub record IsLibrary (p : Primitives) : Type 0 where
  pub decrypts :
      (key plaintext aad : Bytes) (sha : Text)
      → length key ≡ 32
      → p.decrypt key
          (p.encrypt key plaintext aad (p.derive_blob_iv key sha)).iv_b64
          (p.encrypt key plaintext aad (p.derive_blob_iv key sha)).ciphertext
          (p.encrypt key plaintext aad (p.derive_blob_iv key sha)).tag_b64
          aad
        ≡ some plaintext
  pub zstd : IsZstd p.compress p.decompress
  pub base64 : (bytes : Bytes) → p.of_base64 (p.to_base64 bytes) ≡ bytes

-- A key, where there is one, has 32 bytes.
abbrev pub IsSized : Option Bytes → Type 0
IsSized none = Unit {0}
IsSized (some key) = length key ≡ 32

-- SHA-256 has no collision among the bytes that a release hashes.
abbrev pub HasNoCollision :
    Primitives → ReleaseInput → Option Bytes → (ArchiveFile → Type 0) → Type 0
HasNoCollision p input content_key P =
    (a b : Bytes)
    → IsKnown p input content_key P a
    → IsKnown p input content_key P b
    → p.sha256_hex a ≡ p.sha256_hex b
    → a ≡ b

module _ (p : Primitives) (lib : IsLibrary p) (input : ReleaseInput) (content_key : Option Bytes)
    (P : ArchiveFile → Type 0) (sized : IsSized content_key)
    (small : (f : ArchiveFile) → P f → length f.content ≤ max_safe_integer)
    (injective : HasNoCollision p input content_key P) where
  -- A plaintext that was packed and sealed for one file opens as any file with that plaintext.
  check_plaintext-plain :
      (e : FileEntry) (content : Bytes)
      → e.sha256 ≡ p.sha256_hex content
      → e.size ≡ length content
      → check_plaintext p e (plain content) ≡ built content
  unfolding check_plaintext
  check_plaintext-plain e content sha size =
      ground
        (arith, sha, size, ==_iff (length content) e.size, eq_iff (p.sha256_hex content) e.sha256)

  unpack-packed :
      (e : FileEntry) (content : Bytes) (path : Text) (level : ℕ)
      → length content ≤ max_safe_integer
      → e.sha256 ≡ p.sha256_hex content
      → e.size ≡ length content
      → e.blob.compression ≡ (compress_for_blob p.compress content path level).compression
      → unpack p e (some (compress_for_blob p.compress content path level).bytes) ≡ built content
  unpack-packed e content path level few sha size same =
      ap (check_plaintext p e) (
        ap
          (λ c.
            decompress_blob p.decompress (compress_for_blob p.compress content path level).bytes c
              e.size)
          same
        ∙ ap
            (λ n.
              decompress_blob p.decompress (compress_for_blob p.compress content path level).bytes
                (compress_for_blob p.compress content path level).compression n)
            size
        ∙ decompress_blob-compress_for_blob p.compress p.decompress lib.zstd content path level few)
      ∙ check_plaintext-plain e content sha size

  open_blob-stored :
      (key : Option Bytes) (e : FileEntry) (stored packed content : Bytes)
      → length stored ≡ e.blob.size
      → p.sha256_hex stored ≡ e.blob.sha256
      → decrypted p key e stored ≡ some packed
      → unpack p e (some packed) ≡ built content
      → open_blob p key e (some stored) ≡ built content
  unfolding open_blob
  open_blob-stored key e stored packed content size hash opened unpacked = ground (
    arith,
    ==_iff (length stored) e.blob.size,
    eq_iff (p.sha256_hex stored) e.blob.sha256,
    size,
    hash,
    ap (unpack p e) opened ∙ unpacked,
  )

  open_blob-sealed :
      (key : Option Bytes) (e : FileEntry) (content : Bytes) (path : Text) (level : ℕ)
      → IsSized key
      → length content ≤ max_safe_integer
      → e.sha256 ≡ p.sha256_hex content
      → e.size ≡ length content
      → e.blob
        ≡ (seal_blob p
            (compress_for_blob p.compress content path level).bytes
            (compress_for_blob p.compress content path level).compression
            key
            (p.sha256_hex content)).0
      → open_blob p key e (
          some
            (seal_blob p
              (compress_for_blob p.compress content path level).bytes
              (compress_for_blob p.compress content path level).compression
              key
              (p.sha256_hex content)).1)
        ≡ built content
  unfolding seal_blob
  open_blob-sealed none e content path level full few sha size same =
      let packed = compress_for_blob p.compress content path level in
      open_blob-stored none e packed.bytes packed.bytes content
        (sym (ap (λ (b : BlobEntry). b.size) same)) (sym (ap (λ (b : BlobEntry). b.sha256) same))
        refl
        (unpack-packed e content path level few sha size
          (ap (λ (b : BlobEntry). b.compression) same))
  open_blob-sealed (some key) e content path level full few sha size same =
      let packed = compress_for_blob p.compress content path level in
      let aad = blob_aad p (p.sha256_hex content) in
      let iv = p.derive_blob_iv key (p.sha256_hex packed.bytes) in
      let sealed = p.encrypt key packed.bytes aad iv in
      let opened : decrypted p (some key) e sealed.ciphertext ≡ some packed.bytes =
        ap
          (λ (b : BlobEntry).
            p.decrypt key (get_or b.iv_b64 []) sealed.ciphertext (get_or b.tag_b64 [])
              (blob_aad p e.sha256))
          same
        ∙ ap (λ sha. p.decrypt key sealed.iv_b64 sealed.ciphertext sealed.tag_b64 (blob_aad p sha))
            sha
        ∙ lib.decrypts key packed.bytes aad (p.sha256_hex packed.bytes) full in
      open_blob-stored (some key) e sealed.ciphertext packed.bytes content
        (sym (ap (λ (b : BlobEntry). b.size) same)) (sym (ap (λ (b : BlobEntry). b.sha256) same))
        opened
        (unpack-packed e content path level few sha size
          (ap (λ (b : BlobEntry). b.compression) same))

  -- An entry of the built manifest opens from the stored blobs.
  open_blob-IsEntry :
      (blobs : Dict Bytes) (f : ArchiveFile) (e : FileEntry)
      → P f
      → IsEntry p input content_key P blobs f e
      → open_blob p content_key e (get blobs e.blob.sha256) ≡ built f.content
  unfolding seal_file
  open_blob-IsEntry blobs f e own entry =
      let (g, known, same, sealed, found) = entry.stored in
      let content = injective g.content f.content (g, known, inl refl) (f, own, inl refl) same in
      ap (open_blob p content_key e) found
      ∙ open_blob-sealed content_key e g.content g.path (level_of p input content_key g) sized
          (small g known) (entry.sha256 ∙ sym same) (entry.size ∙ ap length (sym content)) sealed
      ∙ ap built content

  pub Opens-AreEntries :
      (blobs : Dict Bytes) (fs : List ArchiveFile) (es : List FileEntry)
      → All P fs
      → AreEntries p input content_key P blobs fs es
      → Opens p (get blobs) content_key fs es
  Opens-AreEntries blobs [] [] known entries = tt
  Opens-AreEntries blobs [] (e ∷ es) known entries = entries
  Opens-AreEntries blobs (f ∷ fs) [] known entries = entries
  Opens-AreEntries blobs (f ∷ fs) (e ∷ es) (own, known) (entry, entries) = (
    entry.path,
    open_blob-IsEntry blobs f e own entry,
    Opens-AreEntries blobs fs es known entries,
  )

  module _
      (separate : (f g : ArchiveFile)
        → P f
        → P g
        → (seal_file p input content_key f).0.sha256 ≡ (seal_file p input content_key g).0.sha256
        → f.content ≡ g.content) where
    same_content :
        (blobs : Dict Bytes) (f f' : ArchiveFile) (e e' : FileEntry)
        → P f
        → P f'
        → IsEntry p input content_key P blobs f e
        → IsEntry p input content_key P blobs f' e'
        → e.blob.sha256 ≡ e'.blob.sha256
        → f.content ≡ f'.content
    same_content blobs f f' e e' own own' entry entry' same =
        let (g, known, sha, sealed, _) = entry.stored in
        let (g', known', sha', sealed', _) = entry'.stored in
        let blobs_agree =
          sym (ap (λ (b : BlobEntry). b.sha256) sealed)
          ∙ same
          ∙ ap (λ (b : BlobEntry). b.sha256) sealed' in
        sym (injective g.content f.content (g, known, inl refl) (f, own, inl refl) sha)
        ∙ separate g g' known known' blobs_agree
        ∙ injective g'.content f'.content (g', known', inl refl) (f', own', inl refl) sha'

    Agrees-AreEntries :
        (blobs : Dict Bytes) (f : ArchiveFile) (e : FileEntry) (fs : List ArchiveFile)
        (es : List FileEntry)
        → P f
        → All P fs
        → IsEntry p input content_key P blobs f e
        → AreEntries p input content_key P blobs fs es
        → Agrees p (get blobs) content_key e f.content fs es
    Agrees-AreEntries blobs f e [] es own known entry entries = tt
    Agrees-AreEntries blobs f e (f' ∷ fs) [] own known entry entries = tt
    Agrees-AreEntries blobs f e (f' ∷ fs) (e' ∷ es) own (own', known) entry (entry', entries) = (
      same_content blobs f f' e e' own own' entry entry',
      Agrees-AreEntries blobs f e fs es own known entry entries,
    )

    pub Agree-AreEntries :
        (blobs : Dict Bytes) (fs : List ArchiveFile) (es : List FileEntry)
        → All P fs
        → AreEntries p input content_key P blobs fs es
        → Agree p (get blobs) content_key fs es
    Agree-AreEntries blobs [] es known entries = tt
    Agree-AreEntries blobs (f ∷ fs) [] known entries = tt
    Agree-AreEntries blobs (f ∷ fs) (e ∷ es) (own, known) (entry, entries) = (
      Agrees-AreEntries blobs f e fs es own known entry entries,
      Agree-AreEntries blobs fs es known entries,
    )
