-- ===== src/Tests/Releases.antt =====
-- Examples for releases: two files of one content, with a hash of two values, a cipher that adds nothing,
-- and a frame format that stores its content.
use dash_ota.Base.{
  ℕ, zero, suc, ◌≡◌, refl, sym, ◌∙◌, arith, Bool, true, false, none, some, inl, inr, List, [], ◌∷◌,
  Text, text, length, drop, is_empty, if◌then◌else◌, if_both, ◌===◌, ◌==◌,
}
use dash_ota.Base.Dict.{get, set}
use dash_ota.Base.Int.{pos}
use dash_ota.Base.Scan.{is_letter}
use dash_ota.Frames.{
  zstd_frame_content_size, read_field, compress_for_blob, is_compressible_extension,
  decompress_blob,
}
use dash_ota.Frames.Unpacking.{IsZstd}
use dash_ota.Manifest.Shape.{
  is_sha256_hex, validate_manifest_shape, check_files, check_file, check_blob, check_patches,
}
use dash_ota.Paths.{validate_path, check_path, check_segments, has_drive}
use dash_ota.Providers.{Bytes}
use dash_ota.Release.{
  ArchiveFile, Primitives, ReleaseInput, Release, built, seal_blob, seal_file, sort_files,
  insert_file, add_entries, build_release, sign_manifest, verify_manifest, open_blob, open_files,
  check_plaintext, verify_release,
}
use dash_ota.Release.RoundTrip.{IsLibrary, HasNoCollision}
use dash_ota.Release.Valid.{IsBuildable, IsPrinter}
use dash_ota.Release.Whole.{used_key, IsFile, all-member, build_release-verifies}
use dash_ota.Release.Verified.{release}
use dash_ota.Release.Trust.{ArePromised, verify_release-ArePromised}

abbrev repeated : ℕ → ℕ → Text
repeated zero c = []
repeated (suc n) c = c ∷ repeated n c

abbrev starts_with_one : Bytes → Bool
starts_with_one [] = false
starts_with_one (b ∷ bytes) = b == 1

abbrev hash : Bytes → Text
hash bytes = if starts_with_one bytes then repeated 64 b'1' else repeated 64 b'0'

-- A frame of one segment whose size takes one cell.
abbrev frame : Bytes → ℕ → Bytes
frame bytes level = 0x28 ∷ 0xb5 ∷ 0x2f ∷ 0xfd ∷ 0x20 ∷ length bytes ∷ bytes

abbrev pub p : Primitives
p = record {
  sha256_hex = hash;
  encrypt = λ key plaintext aad iv. record {
    iv_b64 = text "iv";
    ciphertext = plaintext;
    tag_b64 = text "tag";
  };
  decrypt = λ key iv ciphertext tag aad. some ciphertext;
  derive_blob_iv = λ key sha. [];
  compress = frame;
  decompress = λ bytes. some (drop 6 bytes);
  utf8 = λ t. t;
  to_base64 = λ bytes. bytes;
  of_base64 = λ t. t;
  byte_length = length;
  locale_le = λ a b. true;
  canonical_bytes = λ m. m.bundle_id;
  sign_ed25519 = λ key m. m;
  verify_ed25519 = λ key m signature. true;
}

abbrev files : List ArchiveFile
files =
    record { path = text "main.jsbundle"; content = 1 ∷ [] }
    ∷ record { path = text "assets/a.txt"; content = 1 ∷ [] }
    ∷ []

abbrev input : ReleaseInput
input = record {
  bundle_id = text "b1";
  runtime_version = text "r1";
  bundle_version = pos 1;
  platform = text "ios";
  channel = text "prod";
  app_id = text "app";
  created_at = text "now";
  mandatory = false;
  files = files;
  bundle_path = text "main.jsbundle";
  key_id = text "k";
  encrypt = true;
  content_key = some (repeated 32 7);
  bundle_compression_level = none;
  asset_compression_level = none;
  target_app_versions = none;
  min_native_build = none;
  release_notes = none;
}

frame-IsZstd : IsZstd p.compress p.decompress
unfolding zstd_frame_content_size read_field
frame-IsZstd = record { sized = λ bytes level small. ground arith; restored = λ bytes level. refl }

p-IsLibrary : IsLibrary p
p-IsLibrary = record {
  decrypts = λ key plaintext aad sha full. refl;
  zstd = frame-IsZstd;
  base64 = λ bytes. refl;
}

some_key : (key : Bytes) → length key ≡ 32 → is_empty key ≡ false
some_key [] full = absurd (ground arith)
some_key (b ∷ key) full = refl

p-IsPrinter : IsPrinter p
unfolding is_sha256_hex
p-IsPrinter = record {
  hex = λ bytes.
      if_both (λ t. is_sha256_hex t ≡ true) (starts_with_one bytes) (λ _. refl) (λ _. refl);
  iv = λ key plaintext aad sha full. refl;
  tag = λ key plaintext aad sha full. refl;
  base64 = some_key;
}

input-IsBuildable : IsBuildable p input
unfolding validate_path check_path check_segments has_drive is_letter ◌===◌
input-IsBuildable = record {
  some_file = refl;
  safe = (refl, (refl, tt));
  distinct = (refl, (refl, tt));
  bundle = refl;
  small = (omega arith, (omega arith, tt));
  keyed = refl;
  bundle_id = refl;
  runtime_version = refl;
  app_id = refl;
  key_id = refl;
  platform = refl;
  channel = refl;
}

one_content : (f : ArchiveFile) → IsFile p input f → f.content ≡ 1 ∷ []
unfolding sort_files insert_file
one_content = all-member (λ f. f.content ≡ 1 ∷ []) (sort_files p files) (refl, (refl, tt))

one_stored :
    (f : ArchiveFile)
    → IsFile p input f
    → (seal_file p input (used_key input.encrypt input.content_key) f).1 ≡ 1 ∷ []
unfolding sort_files insert_file seal_file seal_blob compress_for_blob is_compressible_extension
    ◌===◌
one_stored =
    all-member (λ f. (seal_file p input (used_key input.encrypt input.content_key) f).1 ≡ 1 ∷ [])
      (sort_files p files) (refl, (refl, tt))

no_collision : HasNoCollision p input (used_key input.encrypt input.content_key) (IsFile p input)
no_collision a b (f, kf, inl ea) (g, kg, inl eb) same =
    ea ∙ one_content f kf ∙ sym (eb ∙ one_content g kg)
no_collision a b (f, kf, inl ea) (g, kg, inr eb) same =
    ea ∙ one_content f kf ∙ sym (eb ∙ one_stored g kg)
no_collision a b (f, kf, inr ea) (g, kg, inl eb) same =
    ea ∙ one_stored f kf ∙ sym (eb ∙ one_content g kg)
no_collision a b (f, kf, inr ea) (g, kg, inr eb) same =
    ea ∙ one_stored f kf ∙ sym (eb ∙ one_stored g kg)

build_release-verifies_example :
    (r : Release) × (build_release p input ≡ built r)
    × (verify_release p (sign_manifest p r.manifest (text "sk")) (get r.blobs) (text "pk")
        ≡ built (sort_files p files))
build_release-verifies_example =
    build_release-verifies p input (text "sk") (text "pk") p-IsLibrary p-IsPrinter (λ m. refl)
      input-IsBuildable no_collision (λ f g kf kg same. one_content f kf ∙ sym (one_content g kg))

abbrev whole : Release
whole = release p input (used_key input.encrypt input.content_key)

verify_release-ArePromised_example :
    (verify_manifest p (sign_manifest p whole.manifest (text "sk")) (text "pk") ≡ true)
    × (is_empty (validate_manifest_shape p.byte_length whole.manifest) ≡ true)
    × ArePromised p whole.manifest.files (sort_files p files)
unfolding add_entries sort_files insert_file seal_file seal_blob compress_for_blob
    is_compressible_extension ◌===◌ get set sign_manifest verify_manifest validate_manifest_shape
    check_files check_file check_blob check_patches is_sha256_hex validate_path check_path
    check_segments has_drive is_letter verify_release open_files open_blob check_plaintext
    decompress_blob zstd_frame_content_size read_field
verify_release-ArePromised_example =
    verify_release-ArePromised p (sign_manifest p whole.manifest (text "sk")) (get whole.blobs)
      (text "pk") (sort_files p files) (((λ same. (refl, refl)), tt), (tt, tt)) refl

-- A file and its own frame, without encryption: they get one blob, and the second comes back as the first.
abbrev long : Bytes
long = 1 ∷ 1 ∷ 1 ∷ 1 ∷ 1 ∷ 1 ∷ 1 ∷ 1 ∷ []

abbrev q : Primitives
q = record p {
  compress = λ bytes level. 0x28 ∷ 0xb5 ∷ 0x2f ∷ 0xfd ∷ 0x20 ∷ length bytes ∷ [];
  decompress = λ bytes. some long;
}

abbrev twins : ReleaseInput
twins = record input {
  encrypt = false;
  files =
      record { path = text "main.jsbundle"; content = long }
      ∷ record { path = text "main.jsbundle.zst"; content = q.compress long 19 }
      ∷ [];
}

twins_are_confused :
    verify_release q
      (sign_manifest q (release q twins none).manifest (text "sk"))
      (get (release q twins none).blobs)
      (text "pk")
    ≡ built (
        record { path = text "main.jsbundle"; content = long }
        ∷ record { path = text "main.jsbundle.zst"; content = long }
        ∷ [])
unfolding add_entries sort_files insert_file seal_file seal_blob compress_for_blob
    is_compressible_extension ◌===◌ get set sign_manifest verify_manifest validate_manifest_shape
    check_files check_file check_blob check_patches is_sha256_hex validate_path check_path
    check_segments has_drive is_letter verify_release open_files open_blob check_plaintext
    decompress_blob zstd_frame_content_size read_field
twins_are_confused = refl
