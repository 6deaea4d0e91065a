-- ===== src/Frames.antt =====
-- packages/shared/src/compression.ts: which files are compressed, and the size that a zstd frame declares.
-- zstd itself belongs to another library: `compress` and `decompress` are parameters, and a frame that it
-- cannot read is `none`. Sizes are below 2 ^ 45, where the product with 0.98 compares as the exact one.
pub mod Unpacking
use dash_ota.Base.{
  ℕ, suc, zero, ◌+◌, ◌-◌, ◌*◌, ◌/◌, ◌%◌, ◌^◌, Bool, true, false, not, ◌&&◌, ◌||◌, Option, none,
  some, List, [], ◌∷◌, Text, text, ◌==◌, ltb, leb, length, take, drop, contains, is_empty,
  if◌then◌else◌,
}
use dash_ota.Base.Scan.{split}
use dash_ota.Manifest.{Compression, zstd, uncompressed, zstd_patch}
use dash_ota.Providers.{Bytes}
use dash_ota.Store.Sessions.{max_safe_integer}

-- `BUNDLE_COMPRESSION_LEVEL` and `ASSET_COMPRESSION_LEVEL`
abbrev pub bundle_compression_level : ℕ
bundle_compression_level = 19

abbrev pub asset_compression_level : ℕ
asset_compression_level = 3

-- `PRECOMPRESSED_EXTENSIONS`
abbrev precompressed_extensions : List Text
precompressed_extensions =
    text "png"
    ∷ text "jpg"
    ∷ text "jpeg"
    ∷ text "webp"
    ∷ text "gif"
    ∷ text "avif"
    ∷ text "heic"
    ∷ text "mp4"
    ∷ text "m4a"
    ∷ text "m4v"
    ∷ text "mov"
    ∷ text "mp3"
    ∷ text "aac"
    ∷ text "ogg"
    ∷ text "webm"
    ∷ text "zip"
    ∷ text "gz"
    ∷ text "zst"
    ∷ text "br"
    ∷ text "xz"
    ∷ text "bz2"
    ∷ text "jar"
    ∷ text "aar"
    ∷ text "apk"
    ∷ text "woff"
    ∷ text "woff2"
    ∷ []

-- `toLowerCase` on ASCII letters.
abbrev lower : ℕ → ℕ
lower c = if leb b'A' c && leb c b'Z' then c + 32 else c

abbrev lower_text : Text → Text
lower_text [] = []
lower_text (c ∷ cs) = lower c ∷ lower_text cs

-- The piece behind the last separator, if there is one.
abbrev behind_last : List Text → Option Text
behind_last [] = none
behind_last (piece ∷ []) = none
behind_last (piece ∷ last ∷ []) = some last
behind_last (piece ∷ next ∷ more ∷ pieces) = behind_last (next ∷ more ∷ pieces)

-- `isCompressibleExtension`
unfoldable pub is_compressible_extension : Text → Bool
is_compressible_extension path = elim (behind_last (split b'.' path)) [
  | none ↦ true
  | some extension ↦
      is_empty extension || not (contains precompressed_extensions (lower_text extension))
]

pub record CompressedBlob : Type 0 where
  pub bytes : Bytes
  pub compression : Compression

-- `compressForBlob`
unfoldable pub compress_for_blob :
    (compress : Bytes → ℕ → Bytes) (content : Bytes) (path : Text) (level : ℕ) → CompressedBlob
unfolding is_compressible_extension
compress_for_blob compress content path level =
    let plain : CompressedBlob = record { bytes = content; compression = uncompressed } in
    let packed = compress content level in
    if not (is_compressible_extension path)
    then plain
    else if leb (98 * length content) (100 * length packed)
    then plain
    else record { bytes = packed; compression = zstd }

-- The number of `count` bytes, the lowest first.
abbrev read_le : Bytes → ℕ
read_le [] = 0
read_le (byte ∷ bytes) = byte + 256 * read_le bytes

-- `ZSTD_MAGIC`
abbrev zstd_magic : ℕ
zstd_magic = 0xfd2fb528

-- The entries of `[0, 2, 4, 8]` and `[0, 1, 2, 4]`.
abbrev content_size_bytes : ℕ → ℕ
content_size_bytes flag =
    if flag == 0 then 0 else if flag == 1 then 2 else if flag == 2 then 4 else 8

abbrev dictionary_id_bytes : ℕ → ℕ
dictionary_id_bytes flag = if flag == 3 then 4 else flag

-- A field of a frame, if the frame reaches so far.
unfoldable pub read_field : Bytes → (offset count : ℕ) → Option ℕ
read_field bytes offset count =
    if leb (offset + count) (length bytes)
    then some (read_le (take count (drop offset bytes)))
    else none

-- The declared size, from the field, by its width.
abbrev declared : (count : ℕ) → Option ℕ → Option ℕ
declared count none = none
declared count (some n) =
    if count == 2
    then some (n + 256)
    else if count == 8 && ltb max_safe_integer n
    then none
    else some n

-- `zstdFrameContentSize`
unfoldable pub zstd_frame_content_size : Bytes → Option ℕ
unfolding read_field
zstd_frame_content_size bytes = elim (drop 4 bytes) [
  | [] ↦ none
  | descriptor ∷ _ ↦
      let count = content_size_bytes (descriptor / 64) in
      let single_segment = (descriptor / 32) % 2 == 1 in
      let offset = 5 + (if single_segment then 0 else 1) + dictionary_id_bytes (descriptor % 4) in
      if not (read_le (take 4 bytes) == zstd_magic)
      then none
      else if count == 0
      then (if single_segment then read_field bytes offset 1 else none)
      else declared count (read_field bytes offset count)
]

-- What `decompressBlob` throws.
pub data FrameError : Type 0 where
  wrong_length : (actual expected : ℕ) → FrameError
  no_content_size : FrameError
  wrong_content_size : (declared expected : ℕ) → FrameError
  corrupt : FrameError

pub data Unpacked : Type 0 where
  plain : Bytes → Unpacked
  refused : FrameError → Unpacked

abbrev pub of_zstd : Option Bytes → Unpacked
of_zstd none = refused corrupt
of_zstd (some bytes) = plain bytes

abbrev is_zstd : Compression → Bool
is_zstd zstd = true
is_zstd _ = false

abbrev check_declared :
    (decompress : Bytes → Option Bytes) → Bytes → (expected : ℕ) → Option ℕ → Unpacked
check_declared decompress bytes expected none = refused no_content_size
check_declared decompress bytes expected (some size) =
    if size == expected
    then of_zstd (decompress bytes)
    else refused (wrong_content_size size expected)

-- `decompressBlob`
unfoldable pub decompress_blob :
    (decompress : Bytes → Option Bytes) → Bytes → Compression → (expected : ℕ) → Unpacked
unfolding zstd_frame_content_size
decompress_blob decompress bytes compression expected =
    if not (is_zstd compression)
    then (if length bytes == expected
        then plain bytes
        else refused (wrong_length (length bytes) expected))
    else check_declared decompress bytes expected (zstd_frame_content_size bytes)
