-- ===== src/Routes/Device.antt =====
-- packages/backend/src/routes.ts: the handlers of enroll, check and confirm. A body that the handler
-- reads is a record, `none` when it is no JSON object; a field that is tested is there with its type
-- or absent, and a field that is not tested has the type that the wire format gives it. The random
-- tokens, the host's enroll hook and the printing of scopes are parameters; the hooks that run after
-- an answer is settled are not modelled.
pub mod Answers
pub mod Refusals
use dash_ota.Base.{
  ℕ, Bool, true, false, not, ◌||◌, Option, none, some, List, [], ◌∷◌, Text, text, get_or, is_some,
  leb, if◌then◌else◌,
}
use dash_ota.Base.Int.{ℤ, pos}
use dash_ota.Base.Number.{Number}
use dash_ota.Codes.{Code, bad_request, rate_limited, unauthenticated, bad_nonce}
use dash_ota.Config.{BackendConfig}
use dash_ota.Manifest.{SignedManifest}
use dash_ota.Providers.{Bytes, ReleaseRecord, NativeVersionPolicy}
use dash_ota.Store.{State, Outcome, done, failed, fail}
use dash_ota.Store.Adoption.{ConfirmStatus, record_confirm}
use dash_ota.Store.Policies.{Url, enroll, resolve_native_policy}
use dash_ota.Store.Serving.{pick_eligible}
use dash_ota.Store.Sessions.{
  ConfirmScope, check_rate, issue_download_token, issue_server_nonce, consume_server_nonce,
}
use dash_ota.Targeting.{DeviceContext}
use dash_ota.Routes.{Request, given}
use dash_ota.Routes.Auth.{authenticate}

-- `rateLimited`: the 429, or `none` to go on. The header `retry-after` is not kept.
unfoldable pub limited : BackendConfig → State → Text → Text → ℕ → ℕ → State × Bool
limited config st scope identity limit now =
    let (cache, r) = check_rate st.cache scope identity limit config.rate_limit_window_ms now in
    (record st { cache = cache }, not r.allowed)

pub record EnrollRequest : Type 0 where
  pub install_id : Text
  pub platform : Text
  pub channel : Text
  pub device_public_key_b64 : Text
  pub enroll_token : Option Text

-- `enrollAuthorized`; the hook of the host wins.
abbrev pub enroll_authorized : BackendConfig → Option (EnrollRequest → Bool) → EnrollRequest → Bool
enroll_authorized config (some verify) body = verify body
enroll_authorized config none body =
    not config.require_enroll_auth || is_some (given body.enroll_token)

-- POST /ota/v2/enroll, for a body with the four texts; failures count per address.
unfoldable pub post_enroll :
    BackendConfig
    → Option (EnrollRequest → Bool)
    → State
    → (address : Option Text) → Option EnrollRequest
    → (now_iso : Text) → ℕ
    → State × Outcome Text
unfolding limited
post_enroll config verify st address none now_iso now = (st, fail 400 bad_request)
post_enroll config verify st address (some body) now_iso now =
    let (failing, blocked) =
      limited config st (text "enroll-fail") (get_or address (text "unknown"))
        config.enroll_rate_limit now in
    let (passing, stopped) =
      limited config st (text "enroll") body.install_id config.enroll_rate_limit now in
    if enroll_authorized config verify body
    then if stopped then (passing, fail 429 rate_limited) else (
      enroll passing body.install_id body.platform body.channel body.device_public_key_b64 now_iso,
      done body.install_id,
    )
    else (failing, if blocked then fail 429 rate_limited else fail 401 unauthenticated)

pub record CheckRequest : Type 0 where
  pub runtime_version : Option Text
  pub platform : Option Text
  pub channel : Option Text
  pub app_version : Text
  pub build_number : ℤ
  pub current_bundle_version : Option ℤ
  pub current_bundle_id : Option Text

pub record CheckResponse : Type 0 where
  pub update : Option SignedManifest
  pub download_token : Option Text
  pub server_nonce : Text
  pub native_policy : NativeVersionPolicy

-- The device that a check describes, if the three tested texts are there.
unfoldable pub device_of : Text → Option CheckRequest → Option DeviceContext
device_of install_id none = none
device_of install_id (some body) = elim (given body.runtime_version) [
  | none ↦ none
  | some runtime_version ↦ elim (given body.platform) [
    | none ↦ none
    | some platform ↦ elim (given body.channel) [
      | none ↦ none
      | some channel ↦ some (record {
        platform = platform;
        channel = channel;
        runtime_version = runtime_version;
        app_version = body.app_version;
        build_number = body.build_number;
        current_bundle_version = get_or body.current_bundle_version (pos 0);
        install_id = install_id;
      })
    ]
  ]
]

abbrev pub bundle_of : Option CheckRequest → Text
bundle_of none = []
bundle_of (some body) = get_or body.current_bundle_id []

abbrev pub scope_of : DeviceContext → List Text → ConfirmScope
scope_of device bundle_ids = record {
  install_id = device.install_id;
  bundle_ids = bundle_ids;
  platform = device.platform;
  channel = device.channel;
  runtime_version = device.runtime_version;
  current_bundle_version = device.current_bundle_version;
}

module _ (print_scope : ConfirmScope → Text) (config : BackendConfig) (token nonce : Text) where
  -- The answer to a check, from what `pickEligible` chose.
  unfoldable pub answer_check :
      State
      → DeviceContext
      → Text
      → NativeVersionPolicy
      → Option ReleaseRecord
      → ℕ
      → State × CheckResponse
  answer_check st device current policy none now = (
    record st {
      cache =
          issue_server_nonce print_scope config st.cache nonce (scope_of device (current ∷ [])) now;
    },
    record { update = none; download_token = none; server_nonce = nonce; native_policy = policy },
  )
  answer_check st device current policy (some r) now =
      let with_token =
        issue_download_token config st.cache token r.bundle_id device.install_id now in
      (
        record st {
          cache =
              issue_server_nonce print_scope config with_token nonce
                (scope_of device (r.bundle_id ∷ current ∷ [])) now;
        },
        record {
          update = some r.signed_manifest;
          download_token = some token;
          server_nonce = nonce;
          native_policy = policy;
        },
      )

module _ (sha256_hex : Bytes → Text) (to_number : Text → Number)
    (verify_ecdsa : (public_key message signature : Text) → Bool) (text_hash : Text → Text)
    (locale_le : Text → Text → Bool) (print_scope : ConfirmScope → Text)
    (parse_scope : Text → Option ConfirmScope) (parse_url : Text → Option Url)
    (config : BackendConfig) where
  unfoldable pub check_device :
      (token nonce : Text)
      → State
      → (current : Text) → Option DeviceContext
      → ℕ
      → State × Outcome CheckResponse
  unfolding answer_check
  check_device token nonce st current none now = (st, fail 400 bad_request)
  check_device token nonce st current (some device) now =
      let (st', response) =
        answer_check print_scope config token nonce st device current
          (resolve_native_policy parse_url st device.channel device.build_number)
          (pick_eligible text_hash locale_le st.db device) now in
      (st', done response)

  unfoldable pub check_install_id :
      (token nonce : Text)
      → State × Outcome Text
      → Option CheckRequest
      → ℕ
      → State × Outcome CheckResponse
  unfolding check_device limited
  check_install_id token nonce (st, failed f) body now = (st, failed f)
  check_install_id token nonce (st, done install_id) body now =
      let (st', stopped) =
        limited config st (text "check") install_id config.check_rate_limit now in
      if stopped
      then (st', fail 429 rate_limited)
      else check_device token nonce st' (bundle_of body) (device_of install_id body) now

  -- POST /ota/v2/check
  unfoldable pub post_check :
      (token nonce : Text)
      → State
      → Request
      → Option CheckRequest
      → ℕ
      → State × Outcome CheckResponse
  unfolding check_install_id
  post_check token nonce st r body now =
      check_install_id token nonce (authenticate sha256_hex to_number verify_ecdsa config st r now)
        body now

  unfoldable pub confirm_install_id :
      State × Outcome Text
      → Option (Text × ConfirmStatus)
      → (server_nonce : Option Text) → ℕ
      → State × Outcome Bool
  confirm_install_id (st, failed f) body server_nonce now = (st, failed f)
  confirm_install_id (st, done install_id) none server_nonce now = (st, fail 400 bad_request)
  confirm_install_id (st, done install_id) (some (bundle_id, status)) server_nonce now =
      let (st', valid) =
        consume_server_nonce parse_scope config st server_nonce install_id bundle_id status now in
      let (st'', auto_paused) = record_confirm config st' bundle_id status (some install_id) now in
      if valid then (st'', done auto_paused) else (st', fail 401 bad_nonce)

  -- POST /ota/v2/confirm, for a body whose bundle is a text and whose status is known.
  unfoldable pub post_confirm :
      State
      → Request
      → Option (Text × ConfirmStatus)
      → (server_nonce : Option Text) → ℕ
      → State × Outcome Bool
  unfolding confirm_install_id
  post_confirm st r body server_nonce now =
      confirm_install_id (authenticate sha256_hex to_number verify_ecdsa config st r now) body
        server_nonce now
