-- ===== src/Store/Serving.antt =====
-- packages/backend/src/store.ts: choosing a release for a device, and reading its blobs. The hash of
-- a text's UTF-8 bytes and `localeCompare`, as the test that the first text is not after the second,
-- are parameters. `sort` is stable.
pub mod Choice
pub mod Delivery
use dash_ota.Base.{
  ℕ, ◌≡◌, Bool, true, false, not, ◌&&◌, Option, none, some, List, [], ◌∷◌, Text, ◌==◌, is_some,
  keep_if, take, drop, suc, ◌-◌, ltb, if◌then◌else◌,
}
use dash_ota.Base.Int.{ℤ, pos, negsuc, ltb_ℤ}
use dash_ota.Base.Number.{Number, int_lt}
use dash_ota.Manifest.{manifest_schema, find_blob_entry}
use dash_ota.Targeting.{
  DeviceContext, EligibilityResult, eligible, excluded, is_eligible, rollout_bucket,
}
use dash_ota.Base.Dict.{get}
use dash_ota.Providers.{
  ReleaseRecord, Database, get_release, list_releases, Bytes, BlobStore, blob_key, stat,
}
use dash_ota.Store.{State}

module _ (locale_le : Text → Text → Bool) where
  -- `sort((a, b) => b.createdAt.localeCompare(a.createdAt))`, as insertion that is stable.
  unfoldable pub insert_newest : ReleaseRecord → List ReleaseRecord → List ReleaseRecord
  insert_newest r [] = r ∷ []
  insert_newest r (s ∷ rs) =
      let later = s ∷ insert_newest r rs in
      if locale_le s.created_at r.created_at then r ∷ s ∷ rs else later

  unfoldable pub sort_newest : List ReleaseRecord → List ReleaseRecord
  unfolding insert_newest
  sort_newest [] = []
  sort_newest (r ∷ rs) = insert_newest r (sort_newest rs)

  -- `listReleases`
  unfoldable pub sorted_releases : Database → List ReleaseRecord
  unfolding sort_newest
  sorted_releases db = sort_newest (list_releases db)

abbrev pub passes : EligibilityResult → Bool
passes eligible = true
passes (excluded reason) = false

-- `bucket < rolloutPercentage`, false when the bucket is NaN.
abbrev pub is_rolled_out : Option ℕ → Number → Bool
is_rolled_out none pct = false
is_rolled_out (some bucket) pct = int_lt (pos bucket) pct

-- The test of the filter in `pickEligible`.
unfoldable pub qualifies : (sha256_hex : Text → Text) → DeviceContext → ReleaseRecord → Bool
qualifies sha256_hex device r =
    r.finalized
    && (r.schema == manifest_schema)
    && not r.paused
    && not r.rolled_back
    && passes (is_eligible r.signed_manifest.manifest device)
    && is_rolled_out (rollout_bucket sha256_hex device.install_id r.bundle_id) r.rollout_percentage

-- The `reduce` of `pickEligible`.
unfoldable pub best_of : ReleaseRecord → List ReleaseRecord → ReleaseRecord
best_of best [] = best
best_of best (r ∷ rs) = best_of (if ltb_ℤ best.bundle_version r.bundle_version then r else best) rs

abbrev pub reduce_best : List ReleaseRecord → Option ReleaseRecord
reduce_best [] = none
reduce_best (r ∷ rs) = some (best_of r rs)

module _ (sha256_hex : Text → Text) (locale_le : Text → Text → Bool) where
  unfoldable pub pick_eligible : Database → DeviceContext → Option ReleaseRecord
  unfolding sorted_releases qualifies best_of
  pick_eligible db device =
      reduce_best (keep_if (qualifies sha256_hex device) (sorted_releases locale_le db))

-- `releaseReferences`
unfoldable pub release_references : State → Text → Text → Bool
release_references st bundle_id blob_sha256 = elim (get_release st.db bundle_id) [
  | none ↦ false
  | some r ↦ is_some (find_blob_entry r.signed_manifest.manifest blob_sha256)
]

-- `statBlob`
unfoldable pub stat_blob : State → Text → Text → Option ℕ
stat_blob st bundle_id blob_sha256 =
    if release_references st bundle_id blob_sha256
    then stat st.blobs (blob_key blob_sha256)
    else none

-- An inclusive range of bytes; the end is an integer, since the code can compute -1.
pub record ByteRange : Type 0 where
  pub start : ℕ
  pub end : ℤ

-- What opening a stream gives: `null`, an exception, or the bytes that the stream delivers.
pub data Opened : Type 0 where
  absent : Opened
  throws : Opened
  opened : Bytes → Opened

-- `createReadStream`, which refuses a negative end and an end before the start.
abbrev pub read_from : Bytes → ℕ → ℤ → Opened
read_from bytes start (pos end) =
    if ltb end start then throws else opened (take (suc end - start) (drop start bytes))
read_from bytes start (negsuc n) = throws

abbrev pub read_range : Bytes → Option ByteRange → Opened
read_range bytes none = opened bytes
read_range bytes (some r) = read_from bytes r.start r.end

abbrev pub read_found : Option Bytes → Option ByteRange → Opened
read_found none range = absent
read_found (some bytes) range = read_range bytes range

-- `openBlobStream`
unfoldable pub open_blob_stream : State → Text → Text → Option ByteRange → Opened
open_blob_stream st bundle_id blob_sha256 range =
    if release_references st bundle_id blob_sha256
    then read_found (get st.blobs (blob_key blob_sha256)) range
    else absent
