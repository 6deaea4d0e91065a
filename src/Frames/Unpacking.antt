-- ===== src/Frames/Unpacking.antt =====
-- packages/shared/src/compression.ts: what was compressed for a blob unpacks to itself.
use dash_ota.Base.{ℕ, ◌≤◌, ◌≡◌, arith, not, Option, some, Text, length, leb, ◌*◌, ==_iff, if_both}
use dash_ota.Manifest.{zstd, uncompressed}
use dash_ota.Providers.{Bytes}
use dash_ota.Store.Sessions.{max_safe_integer}
use dash_ota.Frames.{
  CompressedBlob, plain, is_compressible_extension, compress_for_blob, zstd_frame_content_size,
  decompress_blob,
}

module _ (compress : Bytes → ℕ → Bytes) (decompress : Bytes → Option Bytes) where
  -- What zstd documents of a frame that it wrote: it declares the size of its content, and gives it back.
  pub record IsZstd : Type 0 where
    pub sized :
        (bytes : Bytes) (level : ℕ)
        → length bytes ≤ max_safe_integer
        → zstd_frame_content_size (compress bytes level) ≡ some (length bytes)
    pub restored : (bytes : Bytes) (level : ℕ) → decompress (compress bytes level) ≡ some bytes

  plain-unpacks :
      (bytes : Bytes) → decompress_blob decompress bytes uncompressed (length bytes) ≡ plain bytes
  unfolding decompress_blob
  plain-unpacks bytes = ground (arith, ==_iff (length bytes) (length bytes))

  frame-unpacks :
      IsZstd
      → (bytes : Bytes) (level : ℕ) → length bytes ≤ max_safe_integer
      → decompress_blob decompress (compress bytes level) zstd (length bytes) ≡ plain bytes
  unfolding decompress_blob
  frame-unpacks lib bytes level small = ground (
    arith,
    lib.sized bytes level small,
    lib.restored bytes level,
    ==_iff (length bytes) (length bytes),
  )

  pub decompress_blob-compress_for_blob :
      IsZstd
      → (bytes : Bytes) (path : Text) (level : ℕ) → length bytes ≤ max_safe_integer
      → decompress_blob decompress
          (compress_for_blob compress bytes path level).bytes
          (compress_for_blob compress bytes path level).compression
          (length bytes)
        ≡ plain bytes
  unfolding compress_for_blob
  decompress_blob-compress_for_blob lib bytes path level small =
      let Opens : CompressedBlob → Type 0 =
        λ b. decompress_blob decompress b.bytes b.compression (length bytes) ≡ plain bytes in
      if_both Opens (not (is_compressible_extension path)) (λ _. plain-unpacks bytes)
        (λ _.
          if_both Opens (leb (98 * length bytes) (100 * length (compress bytes level)))
            (λ _. plain-unpacks bytes) (λ _. frame-unpacks lib bytes level small))
