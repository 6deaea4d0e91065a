-- ===== src/Routes/Admin/Requests.antt =====
-- packages/backend/src/routes.ts: declaring a release, the two listings, and the admin endpoints, each
-- with its own test of the token. The body of a declaration is a record, `none` when it is no JSON
-- object: the signed manifest is there with the types of `SignedManifest` or absent, and the rollout
-- is any value. The reading of a raw public key is a parameter that fails on a malformed key.
use dash_ota.Base.{Bool, not, Option, none, some, List, Text, is_empty, ltb, map, if◌then◌else◌}
use dash_ota.Base.Int.{pos}
use dash_ota.Base.Number.{Number, int, is_finite, clamp_percentage}
use dash_ota.Codes.{
  bad_request, bad_manifest, unknown_key, bad_signature, too_large, internal, uncoded,
}
use dash_ota.Config.{BackendConfig}
use dash_ota.Json.{Json, num}
use dash_ota.Manifest.{SignedManifest, total_blob_bytes}
use dash_ota.Manifest.Shape.{validate_manifest_shape}
use dash_ota.Providers.{Bytes, ReleaseRecord, get_release}
use dash_ota.Release.{Primitives, verify_manifest}
use dash_ota.Routes.{given}
use dash_ota.Routes.Admin.{
  Reply, rejected, shown, listed, ReleaseSummary, require_admin, object_body, reply_of, post_key,
  post_rollout, post_pause, post_rollback, post_native_policy, put_blob_body,
}
use dash_ota.Store.{State}
use dash_ota.Store.Policies.{Url, trusted_key}
use dash_ota.Store.Releases.{create_release, finalize_release}
use dash_ota.Store.Serving.{sorted_releases}

pub record PublishRequest : Type 0 where
  pub signed_manifest : Option SignedManifest
  pub rollout_percentage : Option Json

-- The field `rolloutPercentage`: absent, for 100, or a finite number; `none` for anything else.
abbrev pub rollout_of : Option Json → Option Number
rollout_of none = some (int (pos 100))
rollout_of (some (num n)) = if is_finite n then some n else none
rollout_of (some _) = none

abbrev pub summary_of : ReleaseRecord → ReleaseSummary
summary_of r = record {
  bundle_id = r.bundle_id;
  platform = r.platform;
  channel = r.channel;
  runtime_version = r.runtime_version;
  bundle_version = r.bundle_version;
  rollout_percentage = r.rollout_percentage;
  paused = r.paused;
  rolled_back = r.rolled_back;
  mandatory = r.signed_manifest.manifest.mandatory;
  release_notes = r.signed_manifest.manifest.release_notes;
  adoption = r.adoption;
  created_at = r.created_at;
  schema = r.schema;
  finalized = r.finalized;
  total_bytes = r.total_bytes;
}

-- GET /admin/releases/:bundleId
unfoldable pub get_one : State → Text → State × Reply
get_one st bundle_id = elim (get_release st.db bundle_id) [
  | none ↦ (st, rejected 404 uncoded)
  | some r ↦ (st, shown r)
]

-- GET /admin/releases
unfoldable pub get_all : (locale_le : Text → Text → Bool) → State → State × Reply
unfolding sorted_releases
get_all locale_le st =
    (st, listed (map summary_of (sorted_releases locale_le st.db)) st.db.retired_clients)

module _ (p : Primitives) (key_of_raw : Text → Option Text) (config : BackendConfig) where
  -- The checks of a signed manifest against the key that it names, `none` when they pass.
  unfoldable pub check_signed : State → SignedManifest → Option Reply
  check_signed st sm =
      if not (is_empty (validate_manifest_shape p.byte_length sm.manifest))
      then some (rejected 400 bad_manifest)
      else elim (given (trusted_key st sm.key_id)) [
        | none ↦ some (rejected 400 unknown_key)
        | some raw ↦ elim (key_of_raw raw) [
          | none ↦ some (rejected 500 internal)
          | some key ↦
              if not (verify_manifest p sm key)
              then some (rejected 400 bad_signature)
              else if ltb config.max_bundle_bytes (total_blob_bytes sm.manifest)
              then some (rejected 413 too_large)
              else none
        ]
      ]

  -- POST /admin/releases
  unfoldable pub post_release : State → PublishRequest → (now_iso : Text) → State × Reply
  unfolding check_signed create_release
  post_release st body now_iso = elim body.signed_manifest [
    | none ↦ (st, rejected 400 bad_request)
    | some sm ↦ elim (rollout_of body.rollout_percentage) [
      | none ↦ (st, rejected 400 bad_request)
      | some rollout ↦ elim (check_signed st sm) [
        | some reply ↦ (st, reply)
        | none ↦ reply_of (create_release st sm (clamp_percentage rollout) now_iso)
      ]
    ]
  ]

-- The requests to the admin endpoints, with their parameters and bodies.
pub data Command : Type 0 where
  keys rollout pause rollbacks native_policy : (body : Option Json) → Command
  publish : (body : Option PublishRequest) → (now_iso : Text) → Command
  upload :
      (bundle_id sha : Text) → (content_length : Number) → (body : Option (List Bytes)) → Command
  finalize : (bundle_id : Text) → Command
  show : (bundle_id : Text) → Command
  list : Command

abbrev pub with_body {ℓ} :
    {B : Type ℓ} → State → Option B → (State → B → State × Reply) → State × Reply
with_body st none handler = (st, rejected 400 bad_request)
with_body st (some body) handler = handler st body

-- `if (denied) return denied`, before the rest of a handler.
abbrev pub unless_denied : Option Reply → State → State × Reply → State × Reply
unless_denied (some denied) st rest = (st, denied)
unless_denied none st rest = rest

module _ (text_hash : Text → Text) (bytes_hash : Bytes → Text) (parse_url : Text → Option Url)
    (locale_le : Text → Text → Bool) (p : Primitives) (key_of_raw : Text → Option Text)
    (config : BackendConfig) where
  -- One clause for each admin endpoint: its handler, from the test of the token on.
  unfoldable pub administer : State → (token : Option Text) → Command → State × Reply
  unfolding require_admin post_key post_rollout post_pause post_rollback post_native_policy
      put_blob_body post_release get_one get_all finalize_release
  administer st token (keys body) =
      let denied = require_admin text_hash token config in
      unless_denied denied st (with_body st (object_body body) post_key)
  administer st token (publish body now_iso) =
      let denied = require_admin text_hash token config in
      unless_denied denied st
        (with_body st body (λ s b. post_release p key_of_raw config s b now_iso))
  administer st token (upload bundle_id sha content_length body) =
      let denied = require_admin text_hash token config in
      unless_denied denied st (put_blob_body bytes_hash config st bundle_id sha content_length body)
  administer st token (finalize bundle_id) =
      let denied = require_admin text_hash token config in
      unless_denied denied st (reply_of (finalize_release st bundle_id))
  administer st token (show bundle_id) =
      let denied = require_admin text_hash token config in
      unless_denied denied st (get_one st bundle_id)
  administer st token list =
      let denied = require_admin text_hash token config in
      unless_denied denied st (get_all locale_le st)
  administer st token (rollout body) =
      let denied = require_admin text_hash token config in
      unless_denied denied st (with_body st (object_body body) post_rollout)
  administer st token (pause body) =
      let denied = require_admin text_hash token config in
      unless_denied denied st (with_body st (object_body body) post_pause)
  administer st token (rollbacks body) =
      let denied = require_admin text_hash token config in
      unless_denied denied st (with_body st (object_body body) post_rollback)
  administer st token (native_policy body) =
      let denied = require_admin text_hash token config in
      unless_denied denied st (with_body st (object_body body) (post_native_policy parse_url))
