-- ===== src/Routes/Admin/Steps.antt =====
-- packages/backend/src/routes.ts: what an admin request asks of the store.
use dash_ota.Base.{◌&&◌, leb, Option, none, some, List, Text, text, is_empty, if◌then◌else◌}
use dash_ota.Base.Int.{pos}
use dash_ota.Base.Number.{Number, is_finite, int_lt, clamp_percentage}
use dash_ota.Config.{BackendConfig}
use dash_ota.Json.{Fields, get_field, text_of, as_number, as_bool}
use dash_ota.Manifest.{total_blob_bytes}
use dash_ota.Manifest.Shape.{validate_manifest_shape}
use dash_ota.Providers.{Bytes}
use dash_ota.Release.{Primitives, verify_manifest}
use dash_ota.Routes.{given}
use dash_ota.Store.{State}
use dash_ota.Store.Policies.{Url, trusted_key}
use dash_ota.Store.Publishing.Histories.{
  Call, step, creates, stages, finalizes, sets_rollout, sets_paused, rolls_back, registers_key,
  sets_policy,
}
use dash_ota.Routes.Admin.{object_body, channel_of, version_of, severity_of, link_of}
use dash_ota.Routes.Admin.Requests.{
  PublishRequest, rollout_of, Command, keys, rollout, pause, rollbacks, native_policy, publish,
  upload, finalize, show, list,
}

abbrev pub and_then : {A B : Type 0} → Option A → (A → Option B) → Option B
and_then none f = none
and_then (some a) f = f a

-- The call that the fields of a body ask for, `none` when a field is missing or has a wrong value.
abbrev pub asked_key : Fields → Option Call
asked_key body = and_then (text_of (get_field body (text "keyId"))) λ id.
    and_then (text_of (get_field body (text "publicKeyRawB64"))) λ key. some (registers_key id key)

abbrev pub asked_rollout : Fields → Option Call
asked_rollout body = and_then (text_of (get_field body (text "bundleId"))) λ id.
    and_then (as_number (get_field body (text "rolloutPercentage")))
      λ pct. if is_finite pct then some (sets_rollout id pct) else none

abbrev pub asked_pause : Fields → Option Call
asked_pause body =
    and_then (text_of (get_field body (text "bundleId"))) λ id.
      and_then (as_bool (get_field body (text "paused"))) λ paused. some (sets_paused id paused)

abbrev pub asked_rollback : Fields → Option Call
asked_rollback body =
    and_then (text_of (get_field body (text "bundleId"))) λ id. some (rolls_back id)

-- The state after the call that was asked for, if one was.
abbrev pub after_call : (Bytes → Text) → State → Option Call → State
after_call bytes_hash st none = st
after_call bytes_hash st (some call) = step bytes_hash st call

module _ (bytes_hash : Bytes → Text) (st : State) where
  abbrev pub asked_upload : BackendConfig → Text → Text → Number → Option (List Bytes) → Option Call
  asked_upload config id sha content_length none = none
  asked_upload config id sha content_length (some body) =
      if int_lt (pos config.max_blob_bytes) content_length
      then none
      else some (stages id sha body config.max_blob_bytes)

  module _ (parse_url : Text → Option Url) where
    abbrev pub asked_policy : Fields → Option Call
    asked_policy body = and_then (channel_of (get_field body (text "channel"))) λ channel.
        and_then (version_of (as_number (get_field body (text "minSupportedNativeVersion")))) λ min.
          and_then (severity_of (get_field body (text "severity"))) λ severity.
            and_then (link_of parse_url (get_field body (text "storeUrl"))) λ url. some (
              sets_policy channel (record {
                min_supported_native_version = min;
                severity = severity;
                store_url = url;
              }))

  module _ (p : Primitives) (key_of_raw : Text → Option Text) (config : BackendConfig) where
    -- A declaration asks for the creation of the release, at a rollout between 0 and 100, when the
    -- manifest is well formed, signed under the registered key that it names, and not too large.
    abbrev pub asked_release : Text → PublishRequest → Option Call
    asked_release now_iso body = and_then body.signed_manifest λ sm.
        and_then (rollout_of body.rollout_percentage) λ pct.
          and_then (given (trusted_key st sm.key_id)) λ raw. and_then (key_of_raw raw) λ key.
            if is_empty (validate_manifest_shape p.byte_length sm.manifest)
              && verify_manifest p sm key
              && leb (total_blob_bytes sm.manifest) config.max_bundle_bytes
            then some (creates sm (clamp_percentage pct) now_iso)
            else none

    -- The call of the store that a request asks for.
    abbrev pub asked : (parse_url : Text → Option Url) → Command → Option Call
    asked parse_url (keys body) = and_then (object_body body) asked_key
    asked parse_url (publish body now_iso) = and_then body (asked_release now_iso)
    asked parse_url (upload id sha content_length body) =
        asked_upload config id sha content_length body
    asked parse_url (finalize id) = some (finalizes id)
    asked parse_url (show id) = none
    asked parse_url list = none
    asked parse_url (rollout body) = and_then (object_body body) asked_rollout
    asked parse_url (pause body) = and_then (object_body body) asked_pause
    asked parse_url (rollbacks body) = and_then (object_body body) asked_rollback
    asked parse_url (native_policy body) = and_then (object_body body) (asked_policy parse_url)
