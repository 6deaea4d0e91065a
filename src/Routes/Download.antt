-- ===== src/Routes/Download.antt =====
-- packages/backend/src/routes.ts, the handler of GET /ota/v2/releases/:bundleId/blobs/:blobSha256.
pub mod Access
pub mod Offers
use dash_ota.Base.{
  ℕ, Bool, true, false, ◌||◌, Option, none, some, [], Text, ◌===◌, is_some, get_or, if◌then◌else◌,
}
use dash_ota.Base.Int.{ℤ}
use dash_ota.Codes.{Code, bad_token, token_scope, not_found, gone}
use dash_ota.Http.{RangeResult, whole, part, unsatisfiable, parse_range}
use dash_ota.Manifest.{find_blob_entry}
use dash_ota.Providers.{ReleaseRecord, Bytes, get_release}
use dash_ota.Store.{State}
use dash_ota.Store.Serving.{ByteRange, Opened, absent, throws, opened, stat_blob, open_blob_stream}
use dash_ota.Store.Sessions.{Grant, peek_download_token}
use dash_ota.Routes.{Request}

-- The answers of the handler: an error, a 416 with the size of the blob, the bytes of the blob with
-- the size that is announced, or a part of it. The size of a part and its content length, which the
-- code computes from the range, stand for the headers. An exception becomes a 500.
pub data Answer : Type 0 where
  refused : (status : ℕ) → Code → Answer
  out_of_range : (size : ℕ) → Answer
  sent : (size : ℕ) → Bytes → Answer
  sent_part : ByteRange → (size : ℕ) → Bytes → Answer
  crashed : Answer

unfoldable pub answer_whole : ℕ → Opened → Answer
answer_whole size absent = refused 404 not_found
answer_whole size throws = crashed
answer_whole size (opened bytes) = sent size bytes

unfoldable pub answer_part : ByteRange → ℕ → Opened → Answer
answer_part range size absent = refused 404 not_found
answer_part range size throws = crashed
answer_part range size (opened bytes) = sent_part range size bytes

unfoldable pub answer_range : State → Text → Text → ℕ → RangeResult → Answer
unfolding answer_whole answer_part
answer_range st bundle_id blob_sha256 size unsatisfiable = out_of_range size
answer_range st bundle_id blob_sha256 size whole =
    answer_whole size (open_blob_stream st bundle_id blob_sha256 none)
answer_range st bundle_id blob_sha256 size (part range) =
    answer_part range size (open_blob_stream st bundle_id blob_sha256 (some range))

unfoldable pub serve_blob : State → Request → Text → Text → Option ℕ → Answer
unfolding answer_range
serve_blob st r bundle_id blob_sha256 none = refused 404 not_found
serve_blob st r bundle_id blob_sha256 (some size) =
    answer_range st bundle_id blob_sha256 size (parse_range r.range size)

unfoldable pub serve_release : State → Request → Text → Text → Option ReleaseRecord → Answer
unfolding serve_blob
serve_release st r bundle_id blob_sha256 none = refused 404 not_found
serve_release st r bundle_id blob_sha256 (some found) =
    if found.paused || found.rolled_back
    then refused 410 gone
    else if is_some (find_blob_entry found.signed_manifest.manifest blob_sha256)
    then serve_blob st r bundle_id blob_sha256 (stat_blob st bundle_id blob_sha256)
    else refused 404 not_found

unfoldable pub serve_grant : State → Request → Text → Text → Option Grant → Answer
unfolding serve_release
serve_grant st r bundle_id blob_sha256 none = refused 403 bad_token
serve_grant st r bundle_id blob_sha256 (some grant) =
    if grant.bundle_id === bundle_id
    then serve_release st r bundle_id blob_sha256 (get_release st.db bundle_id)
    else refused 403 token_scope

-- The handler; reading the token sweeps the cache.
unfoldable pub download : State → Request → Text → Text → ℕ → State × Answer
unfolding serve_grant
download st r bundle_id blob_sha256 now =
    let (cache, grant) = peek_download_token st.cache (get_or r.download_token []) now in
    let st' : State = record st { cache = cache } in
    (st', serve_grant st' r bundle_id blob_sha256 grant)
