-- ===== src/Store/Publishing.antt =====
-- The invariant of the store: records stand under their own id, every stored blob has the hash that
-- names it, and a published release is whole.
pub mod Operations
pub mod Keys
pub mod Histories
pub mod Evolution
pub mod Permanence
use dash_ota.Base.{
  ℕ, ◌≡◌, refl, sym, ap, ◌∙◌, subst, Bool, true, false, ◌||◌, Option, none, some, List, [], ◌∷◌,
  ◌++◌, Text, ◌===◌, eq_iff, contains, contains-set_add, set_add, Bool-cases, arith, length,
  if◌then◌else◌, Option-cases, ==_iff, inl, inr,
}
use dash_ota.Base.Dict.{Dict, HasDistinctKeys, get, values, get-set, get-delete}
use dash_ota.Manifest.{Manifest, BlobEntry, find_blob_entry, collect_blob_shas}
use dash_ota.Manifest.Blobs.{contains-collect_blob_shas}
use dash_ota.Providers.{
  ReleaseRecord, Database, get_release, list_releases, put_release, Bytes, BlobStore, blob_key,
  stat, put_blob, delete_blob,
}
use dash_ota.Store.{State}
use dash_ota.Store.Releases.{
  add_all, keep_other, referenced_from, blobs_referenced_elsewhere, delete_unkept, discard_release,
  has_size, missing_from, missing_blobs,
}

-- Every blob that the manifest references is stored, at the size that the manifest gives it.
abbrev pub IsComplete : BlobStore → Manifest → Type 0
IsComplete blobs m =
    (h : Text) (e : BlobEntry)
    → find_blob_entry m h ≡ some e
    → stat blobs (blob_key h) ≡ some e.size

abbrev pub IsKeyed : Dict ReleaseRecord → Type 0
IsKeyed releases = (id : Text) (r : ReleaseRecord) → get releases id ≡ some r → r.bundle_id ≡ id

abbrev pub IsHashed : (Bytes → Text) → BlobStore → Type 0
IsHashed sha256_hex blobs =
    (h : Text) (bytes : Bytes) → get blobs (blob_key h) ≡ some bytes → sha256_hex bytes ≡ h

abbrev pub AreWhole : Dict ReleaseRecord → BlobStore → Type 0
AreWhole releases blobs =
    (id : Text) (r : ReleaseRecord)
    → get releases id ≡ some r
    → r.finalized ≡ true
    → IsComplete blobs r.signed_manifest.manifest

pub record Inv (sha256_hex : Bytes → Text) (st : State) : Type 0 where
  pub distinct : HasDistinctKeys st.db.releases
  pub keyed : IsKeyed st.db.releases
  pub hashed : IsHashed sha256_hex st.blobs
  pub whole : AreWhole st.db.releases st.blobs

pub blob_key-eq : (a b : Text) → (blob_key a === blob_key b) ≡ (a === b)
unfolding ◌===◌ blob_key
blob_key-eq a b = refl

-- What `missingBlobs` does not report is stored at the right size.
missing_from-nil :
    (blobs : BlobStore) (m : Manifest) (shas : List Text) (h : Text)
    → missing_from blobs m shas ≡ []
    → contains shas h ≡ true
    → has_size (stat blobs (blob_key h)) (find_blob_entry m h) ≡ true
unfolding missing_from
missing_from-nil blobs m [] h e c = cc
missing_from-nil blobs m (sha ∷ shas) h e c =
    ground (arith, eq_iff sha h, missing_from-nil blobs m shas h)

pub missing_blobs-IsComplete :
    (blobs : BlobStore) (m : Manifest) → missing_blobs blobs m ≡ [] → IsComplete blobs m
unfolding missing_blobs
missing_blobs-IsComplete blobs m none_missing h e found = ground (
  arith,
  contains-collect_blob_shas m h,
  missing_from-nil blobs m (collect_blob_shas m) h none_missing,
)

pub contains-add_all :
    (keep shas : List Text) (h : Text)
    → contains (add_all keep shas) h ≡ (contains keep h || contains shas h)
contains-add_all keep [] h = ground arith
contains-add_all keep (sha ∷ shas) h =
    ground (arith, contains-add_all (set_add keep sha) shas h, contains-set_add keep sha h)

-- Deleting spares the kept hashes, and adds nothing.
get-delete_unkept :
    (keep shas : List Text) (blobs : BlobStore) (h : Text)
    → contains keep h ≡ true
    → get (delete_unkept keep shas blobs) (blob_key h) ≡ get blobs (blob_key h)
unfolding delete_unkept
get-delete_unkept keep [] blobs h c = refl
get-delete_unkept keep (sha ∷ shas) blobs h c =
    get-delete_unkept keep shas _ h c
    ∙ ground (arith, get-delete blobs (blob_key sha) (blob_key h), blob_key-eq sha h, eq_iff sha h)

delete_unkept-sub :
    (keep shas : List Text) (blobs : BlobStore) (k : Text) {bytes : Bytes}
    → get (delete_unkept keep shas blobs) k ≡ some bytes
    → get blobs k ≡ some bytes
unfolding delete_unkept
delete_unkept-sub keep [] blobs k e = e
delete_unkept-sub keep (sha ∷ shas) blobs k {bytes} e =
    let below = delete_unkept-sub keep shas _ k e in
    ground (arith, below, get-delete blobs (blob_key sha) k)

referenced_from_mono :
    (keep : List Text) (except : Text) (rs : List ReleaseRecord) (h : Text)
    → contains keep h ≡ true
    → contains (referenced_from keep except rs) h ≡ true
unfolding referenced_from
referenced_from_mono keep except [] h c = c
referenced_from_mono keep except (r ∷ rs) h c =
    referenced_from_mono (keep_other keep except r) except rs h
      (ground (arith, contains-add_all keep (collect_blob_shas r.signed_manifest.manifest) h))

contains-referenced_from :
    (keep : List Text) (except : Text) (releases : Dict ReleaseRecord) (id h : Text)
    (r : ReleaseRecord)
    → get releases id ≡ some r
    → (r.bundle_id === except) ≡ false
    → contains (collect_blob_shas r.signed_manifest.manifest) h ≡ true
    → contains (referenced_from keep except (values releases)) h ≡ true
unfolding referenced_from get
contains-referenced_from keep except [] id h r e ne c = cc
contains-referenced_from keep except ((j, s) ∷ releases) id h r e ne c =
    elim (Bool-cases (j === id)) [
      | inl here ↦
          let at : s ≡ r = ground arith in
          referenced_from_mono (keep_other keep except s) except (values releases) h (
            ground
              (arith, at, contains-add_all keep (collect_blob_shas s.signed_manifest.manifest) h))
      | inr there ↦
          contains-referenced_from (keep_other keep except s) except releases id h r (ground arith)
            ne c
    ]

-- Discarding a release deletes no blob that another release references.
pub get-discard_release :
    (st : State) (id other h : Text) (also : List Text) (r : ReleaseRecord)
    → IsKeyed st.db.releases
    → get st.db.releases other ≡ some r
    → (other === id) ≡ false
    → contains (collect_blob_shas r.signed_manifest.manifest) h ≡ true
    → get (discard_release st id also) (blob_key h) ≡ get st.blobs (blob_key h)
unfolding discard_release blobs_referenced_elsewhere
get-discard_release st id other h also r keyed e ne c =
    elim (Option-cases (get st.db.releases id)) [
      | inl missing ↦ rw (missing, discard_release)
      | inr (s, found) ↦
          rw (found, discard_release)
            (get-delete_unkept _ (collect_blob_shas s.signed_manifest.manifest) st.blobs h kept)
    ]
  where
    ne' : (r.bundle_id === id) ≡ false
    ne' = rw (keyed other r e) ne

    kept : contains (add_all (blobs_referenced_elsewhere st.db id) also) h ≡ true
    kept =
        contains-add_all (blobs_referenced_elsewhere st.db id) also h
        ∙ ap (λ b. b || contains also h)
            (contains-referenced_from [] id st.db.releases other h r e ne' c)

pub discard_release-sub :
    (st : State) (id : Text) (also : List Text) (k : Text) {bytes : Bytes}
    → get (discard_release st id also) k ≡ some bytes
    → get st.blobs k ≡ some bytes
unfolding discard_release
discard_release-sub st id also k {bytes} e = elim (Option-cases (get st.db.releases id)) [
  | inl missing ↦ rw (missing, discard_release) at e
  | inr (s, found) ↦
      delete_unkept-sub _ (collect_blob_shas s.signed_manifest.manifest) st.blobs k
        (rw (found, discard_release) at e)
]
