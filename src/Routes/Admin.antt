-- ===== src/Routes/Admin.antt =====
-- packages/backend/src/routes.ts: what the handlers behind the admin token do, once the token is checked.
-- A body is what `JSON.parse` made of it, `none` for invalid JSON. The hash of a text's UTF-8 bytes,
-- the hash of bytes and `new URL` are parameters. The child Requests has the remaining handlers and
-- the endpoints.
pub mod Requests
pub mod Guards
pub mod Steps
use dash_ota.Base.{
  ℕ, Bool, true, false, not, ◌&&◌, ◌||◌, Option, none, some, List, Text, text, ◌===◌, is_empty, leb,
  get_or, [], if◌then◌else◌,
}
use dash_ota.Base.Dict.{Dict}
use dash_ota.Base.Int.{ℤ, pos, negsuc}
use dash_ota.Base.Number.{Number, int, is_finite, int_lt}
use dash_ota.Codes.{Code, admin_disabled, forbidden, bad_request, uncoded, too_large}
use dash_ota.Config.{BackendConfig}
use dash_ota.Json.{Json, Fields, null, bool, num, str, obj, get_field, text_of, as_number, as_bool}
use dash_ota.Providers.{
  Bytes, NativeVersionPolicy, Severity, soft, hard, ReleaseRecord, AdoptionStats,
}
use dash_ota.Store.{State, Outcome, done, failed}
use dash_ota.Store.Policies.{
  Url, is_valid_channel, is_valid_store_url, register_key, set_native_policy,
}
use dash_ota.Store.Releases.{stage_blob, finalize_release, set_rollout, set_paused, rollback}
use dash_ota.Store.Sessions.{max_safe_integer}

-- A release as the listing shows it.
pub record ReleaseSummary : Type 0 where
  pub bundle_id : Text
  pub platform : Text
  pub channel : Text
  pub runtime_version : Text
  pub bundle_version : ℤ
  pub rollout_percentage : Number
  pub paused : Bool
  pub rolled_back : Bool
  pub mandatory : Bool
  pub release_notes : Option Text
  pub adoption : AdoptionStats
  pub created_at : Text
  pub schema : ℕ
  pub finalized : Bool
  pub total_bytes : ℕ

pub data Reply : Type 0 where
  accepted : Reply
  shown : ReleaseRecord → Reply
  listed : List ReleaseSummary → (retired_clients : Dict ℕ) → Reply
  rejected : (status : ℕ) → Code → Reply

module _ (text_hash : Text → Text) where
  -- `constantTimeEqualStr` of packages/shared/src/crypto.ts
  unfoldable pub constant_time_equal_str : Text → Text → Bool
  constant_time_equal_str a b =
      if is_empty a || is_empty b then false else text_hash a === text_hash b

  -- `isAdmin`
  unfoldable pub is_admin : Option Text → BackendConfig → Bool
  unfolding constant_time_equal_str
  is_admin token config =
      not (is_empty config.admin_token)
      && constant_time_equal_str (get_or token []) config.admin_token

  -- `requireAdmin`
  unfoldable pub require_admin : Option Text → BackendConfig → Option Reply
  unfolding is_admin
  require_admin token config =
      if is_empty config.admin_token
      then some (rejected 503 admin_disabled)
      else if is_admin token config
      then none
      else some (rejected 403 forbidden)

-- `objectBody`
abbrev pub object_body : Option Json → Option Fields
object_body (some (obj fields)) = some fields
object_body _ = none

-- The answer of a handler that found the release or not.
abbrev pub found_or_404 : State × Bool → State × Reply
found_or_404 (st, true) = (st, accepted)
found_or_404 (st, false) = (st, rejected 404 uncoded)

abbrev pub reply_of {ℓ} : {A : Type ℓ} → State × Outcome A → State × Reply
reply_of (st, done a) = (st, accepted)
reply_of (st, failed f) = (st, rejected f.status f.code)

-- POST /admin/keys
unfoldable pub post_key : State → Fields → State × Reply
unfolding get_field
post_key st body = elim (text_of (get_field body (text "keyId"))) [
  | none ↦ (st, rejected 400 bad_request)
  | some key_id ↦ elim (text_of (get_field body (text "publicKeyRawB64"))) [
    | none ↦ (st, rejected 400 bad_request)
    | some key ↦ (register_key st key_id key, accepted)
  ]
]

-- POST /admin/rollout
unfoldable pub post_rollout : State → Fields → State × Reply
unfolding get_field
post_rollout st body = elim (text_of (get_field body (text "bundleId"))) [
  | none ↦ (st, rejected 400 bad_request)
  | some bundle_id ↦ elim (as_number (get_field body (text "rolloutPercentage"))) [
    | none ↦ (st, rejected 400 bad_request)
    | some pct ↦
        if is_finite pct
        then found_or_404 (set_rollout st bundle_id pct)
        else (st, rejected 400 bad_request)
  ]
]

-- POST /admin/pause
unfoldable pub post_pause : State → Fields → State × Reply
unfolding get_field
post_pause st body = elim (text_of (get_field body (text "bundleId"))) [
  | none ↦ (st, rejected 400 bad_request)
  | some bundle_id ↦ elim (as_bool (get_field body (text "paused"))) [
    | none ↦ (st, rejected 400 bad_request)
    | some paused ↦ found_or_404 (set_paused st bundle_id paused)
  ]
]

-- POST /admin/rollback
unfoldable pub post_rollback : State → Fields → State × Reply
unfolding get_field
post_rollback st body = elim (text_of (get_field body (text "bundleId"))) [
  | none ↦ (st, rejected 400 bad_request)
  | some bundle_id ↦ found_or_404 (rollback st bundle_id)
]

-- `isValidChannel` on any value.
abbrev pub channel_of : Option Json → Option Text
channel_of (some (str s)) = if is_valid_channel s then some s else none
channel_of _ = none

-- A safe integer that is not negative.
abbrev pub version_of : Option Number → Option ℤ
version_of (some (int (pos n))) = if leb n max_safe_integer then some (pos n) else none
version_of _ = none

abbrev pub severity_of : Option Json → Option Severity
severity_of (some (str s)) =
    if s === text "soft" then some soft else if s === text "hard" then some hard else none
severity_of _ = none

module _ (parse_url : Text → Option Url) where
  -- The field `storeUrl`: absent, or a valid link; `none` for anything else.
  abbrev pub link_of : Option Json → Option (Option Text)
  link_of none = some none
  link_of (some (str url)) = if is_valid_store_url parse_url url then some (some url) else none
  link_of (some _) = none

  -- POST /admin/native-policy
  unfoldable pub post_native_policy : State → Fields → State × Reply
  unfolding get_field
  post_native_policy st body = elim (channel_of (get_field body (text "channel"))) [
    | none ↦ (st, rejected 400 bad_request)
    | some channel ↦
        elim (version_of (as_number (get_field body (text "minSupportedNativeVersion")))) [
          | none ↦ (st, rejected 400 bad_request)
          | some min ↦ elim (severity_of (get_field body (text "severity"))) [
            | none ↦ (st, rejected 400 bad_request)
            | some severity ↦ elim (link_of (get_field body (text "storeUrl"))) [
              | none ↦ (st, rejected 400 bad_request)
              | some url ↦ (
                set_native_policy st channel (record {
                  min_supported_native_version = min;
                  severity = severity;
                  store_url = url;
                }),
                accepted,
              )
            ]
          ]
        ]
  ]

module _ (bytes_hash : Bytes → Text) where
  -- PUT /admin/releases/:bundleId/blobs/:blobSha256; the length is NaN without the header.
  unfoldable pub put_blob_body :
      BackendConfig → State → Text → Text → Number → Option (List Bytes) → State × Reply
  put_blob_body config st bundle_id sha content_length none = (st, rejected 400 uncoded)
  put_blob_body config st bundle_id sha content_length (some body) =
      let staged = stage_blob bytes_hash st bundle_id sha body config.max_blob_bytes in
      if int_lt (pos config.max_blob_bytes) content_length
      then (st, rejected 413 too_large)
      else reply_of staged
