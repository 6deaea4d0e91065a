-- ===== src/Cli/Publish.antt =====
-- packages/cli/src/core.ts: uploading a prepared release and operating the published ones.
-- `encodeURIComponent` is a parameter; progress events are left out.
pub mod Uploads
use dash_ota.Base.{
  ℕ, suc, zero, ◌+◌, Bool, true, false, not, ◌&&◌, ◌||◌, Option, none, some, List, [], ◌∷◌, ◌++◌,
  Text, text, ◌===◌, length, is_empty, get_or, if◌then◌else◌, max,
}
use dash_ota.Base.Dict.{Dict, get}
use dash_ota.Base.Int.{ℤ, pos, negsuc, leb_ℤ}
use dash_ota.Base.Number.{Number, int}
use dash_ota.Json.{
  Json, null, bool, num, str, arr, obj, Items, nil, cons, Fields, end, field, get_field,
}
use dash_ota.Providers.{Bytes}
use dash_ota.Cli.{
  Result, returned, thrown, Fault, bad_rollout, bad_missing, no_properties, unknown_blob,
  no_bundle_id, bad_severity, bad_minimum, Request, Reply, admin_post, admin_put_bytes,
  default_attempts,
}

pub record PreparedRelease : Type 0 where
  pub bundle_id : Text
  pub signed : Json
  pub blobs : Dict Bytes

-- What `uploadRelease` returns.
pub record Uploaded : Type 0 where
  pub bundle_id : Text
  pub uploaded : ℕ
  pub total : ℕ
  pub response : Json

-- `!Number.isInteger(pct) || pct < 0 || pct > 100`, negated.
abbrev pub is_percent : Number → Bool
is_percent (int pct) = leb_ℤ (pos 0) pct && leb_ℤ pct (pos 100)
is_percent _ = false

-- `!Number.isInteger(n) || n < 0`, negated.
abbrev pub is_natural : Number → Bool
is_natural (int n) = leb_ℤ (pos 0) n
is_natural _ = false

-- `releaseState` of a listed release; `finalized` is absent from old backends.
pub data ReleaseState : Type 0 where
  incomplete : ReleaseState
  rolled_back : ReleaseState
  paused : ReleaseState
  percent : Number → ReleaseState

unfoldable pub release_state : Option Bool → Bool → Bool → Number → ReleaseState
release_state finalized is_rolled_back is_paused rollout_percentage =
    if not (get_or finalized true)
    then incomplete
    else if is_rolled_back
    then rolled_back
    else if is_paused
    then paused
    else percent rollout_percentage

-- The texts of an array of texts.
unfoldable pub read_texts : Items → Result (List Text)
read_texts nil = returned []
read_texts (cons (str s) items) = elim (read_texts items) [
  | returned texts ↦ returned (s ∷ texts)
  | thrown fault ↦ thrown fault
]
read_texts (cons _ items) = thrown bad_missing

-- `created.missing ?? []` and its check; `null` has no properties.
unfoldable pub texts_of : Option Json → Result (List Text)
unfolding read_texts
texts_of none = returned []
texts_of (some null) = returned []
texts_of (some (arr items)) = read_texts items
texts_of (some _) = thrown bad_missing

abbrev pub read_missing : Json → Result (List Text)
unfolding get_field texts_of
read_missing null = thrown no_properties
read_missing (obj fields) = texts_of (get_field fields (text "missing"))
read_missing _ = returned []

-- The body that declares a release.
abbrev pub declaration : PreparedRelease → Number → Json
declaration prepared rollout = obj (
    field (text "signedManifest") prepared.signed
      (field (text "rolloutPercentage") (num rollout) end))

abbrev pub releases_path : Text
releases_path = text "/admin/releases"

module _ (encode : Text → Text) where
  abbrev pub blob_path : Text → Text → Text
  blob_path bundle_id sha = text "/admin/releases/" ++ encode bundle_id ++ text "/blobs/" ++ sha

  abbrev pub finalize_path : Text → Text
  finalize_path bundle_id = text "/admin/releases/" ++ encode bundle_id ++ text "/finalize"

module _ {ℓ} {S : Type ℓ} (send : S → Request → S × Reply) (parse : Text → Result Json)
    (encode : Text → Text) where
  -- The loop of `uploadRelease`.
  unfoldable pub upload_blobs : PreparedRelease → List Text → S → S × Option Fault
  upload_blobs prepared [] s = (s, none)
  upload_blobs prepared (sha ∷ missing) s = elim (get prepared.blobs sha) [
    | none ↦ (s, some (unknown_blob sha))
    | some bytes ↦
        let (s', answer) =
          admin_put_bytes send parse default_attempts s (blob_path encode prepared.bundle_id sha)
            bytes in
        elim answer [
          | returned _ ↦ upload_blobs prepared missing s'
          | thrown fault ↦ (s', some fault)
        ]
  ]

  -- The `finalize` request and the result.
  abbrev pub finalize_upload : PreparedRelease → ℕ → S × Option Fault → S × Result Uploaded
  finalize_upload prepared uploaded (s, some fault) = (s, thrown fault)
  finalize_upload prepared uploaded (s, none) =
      let (s', answer) =
        admin_post send parse s (finalize_path encode prepared.bundle_id) (obj end) in
      elim answer [
        | returned response ↦ (
          s',
          returned (record {
            bundle_id = prepared.bundle_id;
            uploaded = uploaded;
            total = length prepared.blobs;
            response = response;
          }),
        )
        | thrown fault ↦ (s', thrown fault)
      ]

  unfoldable pub upload_missing : PreparedRelease → S → Result (List Text) → S × Result Uploaded
  unfolding upload_blobs
  upload_missing prepared s (returned missing) =
      finalize_upload prepared (length missing) (upload_blobs prepared missing s)
  upload_missing prepared s (thrown fault) = (s, thrown fault)

  abbrev pub upload_declared : PreparedRelease → S × Result Json → S × Result Uploaded
  upload_declared prepared (s, returned created) = upload_missing prepared s (read_missing created)
  upload_declared prepared (s, thrown fault) = (s, thrown fault)

  unfoldable pub upload_release : S → PreparedRelease → Number → S × Result Uploaded
  upload_release s prepared rollout =
      if is_percent rollout
      then upload_declared prepared
          (admin_post send parse s releases_path (declaration prepared rollout))
      else (s, thrown (bad_rollout rollout))

  -- An operation whose answer is dropped.
  abbrev pub drop_answer : S × Result Json → S × Option Fault
  drop_answer (s, returned _) = (s, none)
  drop_answer (s, thrown fault) = (s, some fault)

  abbrev pub operate : S → Text → Text → Fields → S × Option Fault
  operate s bundle_id path fields =
      if is_empty bundle_id
      then (s, some no_bundle_id)
      else drop_answer
          (admin_post send parse s path (obj (field (text "bundleId") (str bundle_id) fields)))

  unfoldable pub set_rollout : S → Text → Number → S × Option Fault
  set_rollout s bundle_id pct =
      if not (is_empty bundle_id) && not (is_percent pct)
      then (s, some (bad_rollout pct))
      else operate s bundle_id (text "/admin/rollout")
          (field (text "rolloutPercentage") (num pct) end)

  unfoldable pub set_paused : S → Text → Bool → S × Option Fault
  set_paused s bundle_id is_paused =
      operate s bundle_id (text "/admin/pause") (field (text "paused") (bool is_paused) end)

  unfoldable pub rollback_release : S → Text → S × Option Fault
  rollback_release s bundle_id = operate s bundle_id (text "/admin/rollback") end

  unfoldable pub register_key : S → Text → Text → S × Option Fault
  register_key s key_id public_key = drop_answer (
      admin_post send parse s (text "/admin/keys") (
        obj (
          field (text "keyId") (str key_id) (field (text "publicKeyRawB64") (str public_key) end))))

  -- `setNativePolicy`; an empty store URL is left out.
  unfoldable pub set_native_policy : S → Text → Number → Text → Text → S × Option Fault
  set_native_policy s channel minimum severity store_url =
      let url = if is_empty store_url then end else field (text "storeUrl") (str store_url) end in
      if not (severity === text "soft" || severity === text "hard")
      then (s, some bad_severity)
      else if not (is_natural minimum)
      then (s, some bad_minimum)
      else drop_answer (
          admin_post send parse s (text "/admin/native-policy") (
            obj (
              field (text "channel") (str channel) (
                field (text "minSupportedNativeVersion") (num minimum)
                  (field (text "severity") (str severity) url)))))
