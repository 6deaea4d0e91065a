-- ===== src/Manifest/Blobs.antt =====
-- The blobs that a manifest references: lookup, enumeration and total size agree.
use dash_ota.Base.{
  ◌≡◌, refl, Bool, ◌||◌, Option, none, some, List, [], ◌∷◌, Text, ◌===◌, eq_iff, contains,
  contains-set_add, set_add, set_add-IsDistinct, IsDistinct, is_some, find?, find?-holds, arith,
}
use dash_ota.Manifest.{
  BlobEntry, FileEntry, PatchEntry, Manifest, find_blob_entry, first_blob, add_files, add_patches,
  collect_blob_shas,
}

abbrev lists_file : List FileEntry → Text → Bool
lists_file fs h = is_some (find? (λ f. f.blob.sha256 === h) fs)

abbrev lists_patch : List PatchEntry → Text → Bool
lists_patch ps h = is_some (find? (λ p. p.blob.sha256 === h) ps)

contains-add_files :
    (fs : List FileEntry) (seen : List Text) (h : Text)
    → contains (add_files seen fs) h ≡ (contains seen h || lists_file fs h)
contains-add_files [] seen h = ground arith
contains-add_files (f ∷ fs) seen h = ground (
  arith,
  contains-add_files fs (set_add seen f.blob.sha256) h,
  contains-set_add seen f.blob.sha256 h,
)

contains-add_patches :
    (ps : List PatchEntry) (seen : List Text) (h : Text)
    → contains (add_patches seen ps) h ≡ (contains seen h || lists_patch ps h)
contains-add_patches [] seen h = ground arith
contains-add_patches (p ∷ ps) seen h = ground (
  arith,
  contains-add_patches ps (set_add seen p.blob.sha256) h,
  contains-set_add seen p.blob.sha256 h,
)

-- A hash is enumerated by `collectBlobShas` exactly when `findBlobEntry` finds an entry for it.
pub contains-collect_blob_shas :
    (m : Manifest) (h : Text) → contains (collect_blob_shas m) h ≡ is_some (find_blob_entry m h)
unfolding collect_blob_shas find_blob_entry
contains-collect_blob_shas m h = ground (
  arith,
  contains-add_patches m.patches (add_files [] m.files) h,
  contains-add_files m.files [] h,
)

add_files-IsDistinct :
    (fs : List FileEntry) (seen : List Text) → IsDistinct seen → IsDistinct (add_files seen fs)
add_files-IsDistinct [] seen d = d
add_files-IsDistinct (f ∷ fs) seen d =
    add_files-IsDistinct fs _ (set_add-IsDistinct seen f.blob.sha256 d)

add_patches-IsDistinct :
    (ps : List PatchEntry) (seen : List Text) → IsDistinct seen → IsDistinct (add_patches seen ps)
add_patches-IsDistinct [] seen d = d
add_patches-IsDistinct (p ∷ ps) seen d =
    add_patches-IsDistinct ps _ (set_add-IsDistinct seen p.blob.sha256 d)

pub collect_blob_shas-IsDistinct : (m : Manifest) → IsDistinct (collect_blob_shas m)
unfolding collect_blob_shas
collect_blob_shas-IsDistinct m =
    add_patches-IsDistinct m.patches _ (add_files-IsDistinct m.files [] tt)

-- The enumeration has no duplicate and holds exactly the hashes that the lookup resolves.
pub collect_blob_shas_lem :
    (m : Manifest)
    → IsDistinct (collect_blob_shas m)
      × ((h : Text) → contains (collect_blob_shas m) h ≡ is_some (find_blob_entry m h))
collect_blob_shas_lem m = (collect_blob_shas-IsDistinct m, contains-collect_blob_shas m)

first_blob-sha256 :
    (h : Text) (of : Option FileEntry) (op : Option PatchEntry) {b : BlobEntry}
    → ((f : FileEntry) → of ≡ some f → f.blob.sha256 ≡ h)
    → ((p : PatchEntry) → op ≡ some p → p.blob.sha256 ≡ h)
    → first_blob of op ≡ some b
    → b.sha256 ≡ h
first_blob-sha256 h (some f) op p q e = ground (arith, p f refl)
first_blob-sha256 h none (some p) k q e = ground (arith, q p refl)
first_blob-sha256 h none none p q e = cc

-- What a lookup finds carries the hash that was asked for.
find_blob_entry-sha256 :
    (m : Manifest) (h : Text) {b : BlobEntry} → find_blob_entry m h ≡ some b → b.sha256 ≡ h
unfolding find_blob_entry
find_blob_entry-sha256 m h e =
    first_blob-sha256 h _ _
      (λ f found. (eq_iff _ _).0 (find?-holds (λ f. f.blob.sha256 === h) m.files found))
      (λ p found. (eq_iff _ _).0 (find?-holds (λ p. p.blob.sha256 === h) m.patches found)) e
