-- ===== src/Store/Releases.antt =====
-- packages/backend/src/store.ts: publishing and operating releases. The SHA-256 of the stored bytes
-- is a parameter; an upload arrives as a list of chunks; the creation time is the text `now_iso`.
use dash_ota.Base.{
  ℕ, ◌+◌, Bool, true, false, not, Option, none, some, List, [], ◌∷◌, ◌++◌, Text, ◌===◌, ◌==◌, ltb,
  length, contains, set_add, is_empty, if◌then◌else◌,
}
use dash_ota.Base.Number.{Number, round, clamp_percentage}
use dash_ota.Codes.{
  already_published, no_release, no_blob, too_large, hash_mismatch, size_mismatch, incomplete,
}
use dash_ota.Manifest.{
  Manifest, SignedManifest, BlobEntry, find_blob_entry, collect_blob_shas, total_blob_bytes,
}
use dash_ota.Providers.{
  AdoptionStats, ReleaseRecord, Database, get_release, list_releases, put_release, Bytes, BlobStore,
  blob_key, stat, put_blob, delete_blob,
}
use dash_ota.Store.{State, Outcome, done, failed, fail}

-- The inner loop of `blobsReferencedElsewhere`, also that over `keepAlso`.
abbrev pub add_all : List Text → List Text → List Text
add_all keep [] = keep
add_all keep (sha ∷ shas) = add_all (set_add keep sha) shas

-- One round of its outer loop.
abbrev pub keep_other : List Text → Text → ReleaseRecord → List Text
keep_other keep except other =
    if other.bundle_id === except
    then keep
    else add_all keep (collect_blob_shas other.signed_manifest.manifest)

unfoldable pub referenced_from : List Text → Text → List ReleaseRecord → List Text
referenced_from keep except [] = keep
referenced_from keep except (other ∷ others) =
    referenced_from (keep_other keep except other) except others

-- `blobsReferencedElsewhere`
unfoldable pub blobs_referenced_elsewhere : Database → Text → List Text
unfolding referenced_from
blobs_referenced_elsewhere db except_bundle_id =
    referenced_from [] except_bundle_id (list_releases db)

-- The loop of `discardRelease`.
unfoldable pub delete_unkept : List Text → List Text → BlobStore → BlobStore
delete_unkept keep [] blobs = blobs
delete_unkept keep (sha ∷ shas) blobs =
    delete_unkept keep shas (if contains keep sha then blobs else delete_blob blobs (blob_key sha))

-- `discardRelease`, of which only the blobs change.
unfoldable pub discard_release : State → Text → List Text → BlobStore
unfolding blobs_referenced_elsewhere delete_unkept
discard_release st bundle_id keep_also = elim (get_release st.db bundle_id) [
  | none ↦ st.blobs
  | some r ↦
      delete_unkept (add_all (blobs_referenced_elsewhere st.db bundle_id) keep_also)
        (collect_blob_shas r.signed_manifest.manifest) st.blobs
]

-- `stat.size !== expected?.size`, negated.
abbrev pub has_size : Option ℕ → Option BlobEntry → Bool
has_size none expected = false
has_size (some size) none = false
has_size (some size) (some b) = size == b.size

-- The loop of `missingBlobs`.
unfoldable pub missing_from : BlobStore → Manifest → List Text → List Text
missing_from blobs m [] = []
missing_from blobs m (sha ∷ shas) =
    let rest = missing_from blobs m shas in
    if has_size (stat blobs (blob_key sha)) (find_blob_entry m sha) then rest else sha ∷ rest

unfoldable pub missing_blobs : BlobStore → Manifest → List Text
unfolding missing_from
missing_blobs blobs m = missing_from blobs m (collect_blob_shas m)

abbrev pub no_adoption : AdoptionStats
no_adoption = record { applied = 0; healthy = 0; failed = 0; rolled_back = 0 }

-- The record that `createRelease` stores; `existing` is an unfinalised attempt.
abbrev pub new_record : SignedManifest → Number → Text → Option ReleaseRecord → ReleaseRecord
new_record sm rollout now_iso existing =
    let m = sm.manifest in
    record {
      bundle_id = m.bundle_id;
      platform = m.platform;
      channel = m.channel;
      runtime_version = m.runtime_version;
      bundle_version = m.bundle_version;
      signed_manifest = sm;
      rollout_percentage = rollout;
      paused = elim existing [ none ↦ false | some r ↦ r.paused ];
      rolled_back = elim existing [ none ↦ false | some r ↦ r.rolled_back ];
      created_at = elim existing [ none ↦ now_iso | some r ↦ r.created_at ];
      adoption = elim existing [ none ↦ no_adoption | some r ↦ r.adoption ];
      schema = m.schema;
      finalized = false;
      total_bytes = total_blob_bytes m;
    }

abbrev pub is_finalized : Option ReleaseRecord → Bool
is_finalized none = false
is_finalized (some r) = r.finalized

-- The blobs that are left when a new attempt replaces `existing`.
abbrev pub replaced_blobs : State → Manifest → Option ReleaseRecord → BlobStore
replaced_blobs st m none = st.blobs
replaced_blobs st m (some r) = discard_release st m.bundle_id (collect_blob_shas m)

unfoldable pub create_release :
    State → SignedManifest → Number → Text → State × Outcome (ReleaseRecord × List Text)
create_release st sm rollout now_iso =
    let m = sm.manifest in
    let existing = get_release st.db m.bundle_id in
    let r = new_record sm rollout now_iso existing in
    let blobs = replaced_blobs st m existing in
    if is_finalized existing
    then (st, fail 409 already_published)
    else (record st { db = put_release st.db r; blobs = blobs }, done (r, missing_blobs blobs m))

-- packages/backend/src/upload.ts, `spoolToTemp`: the bytes of a body within the cap.
unfoldable pub spool_from : Bytes → ℕ → ℕ → List Bytes → Option Bytes
spool_from out size max_bytes [] = some out
spool_from out size max_bytes (chunk ∷ chunks) =
    let rest = spool_from (out ++ chunk) (size + length chunk) max_bytes chunks in
    if ltb max_bytes (size + length chunk) then none else rest

unfoldable pub spool_to_temp : List Bytes → ℕ → Option Bytes
unfolding spool_from
spool_to_temp body max_bytes = spool_from [] 0 max_bytes body

module _ (sha256_hex : Bytes → Text) where
  -- The checks on a spooled body, and the write.
  unfoldable pub store_spooled : State → Text → BlobEntry → Option Bytes → State × Outcome Bool
  store_spooled st sha expected none = (st, fail 413 too_large)
  store_spooled st sha expected (some bytes) =
      if not (sha256_hex bytes === sha)
      then (st, fail 400 hash_mismatch)
      else if not (length bytes == expected.size)
      then (st, fail 400 size_mismatch)
      else (record st { blobs = put_blob st.blobs (blob_key sha) bytes }, done false)

  unfoldable pub stage_expected :
      State → Text → List Bytes → ℕ → Option BlobEntry → State × Outcome Bool
  unfolding store_spooled
  stage_expected st sha body max_bytes none = (st, fail 404 no_blob)
  stage_expected st sha body max_bytes (some expected) =
      if has_size (stat st.blobs (blob_key sha)) (some expected)
      then (st, done true)
      else store_spooled st sha expected (spool_to_temp body max_bytes)

  -- `stageBlob`; the result says whether the blob was already there.
  unfoldable pub stage_blob : State → Text → Text → List Bytes → ℕ → State × Outcome Bool
  unfolding stage_expected
  stage_blob st bundle_id sha body max_bytes = elim (get_release st.db bundle_id) [
    | none ↦ (st, fail 404 no_release)
    | some r ↦ stage_expected st sha body max_bytes (find_blob_entry r.signed_manifest.manifest sha)
  ]

unfoldable pub finalize_found : State → ReleaseRecord → State × Outcome (ReleaseRecord × Bool)
finalize_found st r =
    let missing = missing_blobs st.blobs r.signed_manifest.manifest in
    let finalized : ReleaseRecord = record r { finalized = true } in
    if r.finalized
    then (st, done (r, true))
    else if is_empty missing
    then (record st { db = put_release st.db finalized }, done (finalized, false))
    else (st, failed (record { status = 409; code = incomplete; missing = missing }))

-- `finalizeRelease`; the flag says whether the release was already final.
unfoldable pub finalize_release : State → Text → State × Outcome (ReleaseRecord × Bool)
unfolding finalize_found
finalize_release st bundle_id = elim (get_release st.db bundle_id) [
  | none ↦ (st, fail 404 no_release)
  | some r ↦ finalize_found st r
]

-- `setRollout`, `setPaused` and `rollback`: a change to one record, `false` when it is unknown.
abbrev pub update_release : State → Text → (ReleaseRecord → ReleaseRecord) → State × Bool
update_release st bundle_id change = elim (get_release st.db bundle_id) [
  | none ↦ (st, false)
  | some r ↦ (record st { db = put_release st.db (change r) }, true)
]

unfoldable pub set_rollout : State → Text → Number → State × Bool
set_rollout st bundle_id pct =
    update_release st bundle_id
      (λ r. record r { rollout_percentage = clamp_percentage (round pct) })

unfoldable pub set_paused : State → Text → Bool → State × Bool
set_paused st bundle_id paused = update_release st bundle_id (λ r. record r { paused = paused })

unfoldable pub rollback : State → Text → State × Bool
rollback st bundle_id =
    update_release st bundle_id (λ r. record r { rolled_back = true; paused = true })
