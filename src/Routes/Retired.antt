-- ===== src/Routes/Retired.antt =====
-- packages/backend/src/routes.ts: the endpoints that clients of the first protocol still call. The
-- body is what `JSON.parse` made of it, `none` for invalid JSON; the update of the answer is `null` and
-- its nonce empty, so that only the policy is kept. `new URL` is a parameter.
use dash_ota.Base.{◌≡◌, Option, Text, text, get_or}
use dash_ota.Base.Int.{pos}
use dash_ota.Json.{Json, end, get_field, as_text}
use dash_ota.Providers.{NativeVersionPolicy, hard}
use dash_ota.Routes.Admin.{object_body, channel_of}
use dash_ota.Store.{State}
use dash_ota.Store.Policies.{Url, record_retired_client, retired_policy}
use dash_ota.Store.Publishing.Keys.{releases-record_retired_client}
use dash_ota.Store.Policies.Gate.{IsSafe, policies-IsSafe}

-- A field of the body; a body that is no object has no field.
abbrev pub field_of : Option Json → Text → Option Json
field_of body name = get_field (get_or (object_body body) end) name

abbrev pub retired_channel : Option Json → Text
retired_channel body = get_or (channel_of (field_of body (text "channel"))) (text "unknown")

abbrev pub retired_platform : Option Json → Text
retired_platform body = get_or (as_text (field_of body (text "platform"))) (text "unknown")

module _ (parse_url : Text → Option Url) where
  -- POST /ota/v1/check and POST /ota/v1/enroll
  unfoldable pub tombstone : State → Option Json → State × NativeVersionPolicy
  unfolding get_field
  tombstone st body =
      let st' = record_retired_client st (retired_channel body) (retired_platform body) in
      (st', retired_policy parse_url st' (retired_channel body))

  -- Whatever body a retired client sends, it is answered a hard gate whose link, if there is one, passes
  -- the store-link test, and no release changes.
  tombstone-IsSafe :
      (st : State) (body : Option Json)
      → ((tombstone st body).1.severity ≡ hard)
        × IsSafe parse_url (tombstone st body).1.store_url
        × ((tombstone st body).0.db.releases ≡ st.db.releases)
  unfolding tombstone
  tombstone-IsSafe st body =
      let st' = record_retired_client st (retired_channel body) (retired_platform body) in
      let (current, safe, gated) = policies-IsSafe parse_url st' (retired_channel body) (pos 0) in
      (
        gated,
        safe,
        releases-record_retired_client st (retired_channel body) (retired_platform body),
      )
