-- ===== src/Client/Session/Backend.antt =====
-- packages/rn/src/otaClient.ts against packages/backend/src/routes.ts: the backend as the server of the
-- client. The times, tokens and nonces of the server's n-th request are parameters.
pub mod Answers
use dash_ota.Base.{
  ℕ, suc, ◌≡◌, ◌⊎◌, inl, inr, refl, ap, ◌∙◌, arith, Bool, true, false, Option, none, some, [], Text,
  text, is_empty, is_some, eq_iff,
}
use dash_ota.Base.Dict.{get-set}
use dash_ota.Base.Int.{ℤ}
use dash_ota.Base.Number.{Number}
use dash_ota.Codes.{not_enrolled}
use dash_ota.Config.{BackendConfig}
use dash_ota.Providers.{Bytes, InstallRecord}
use dash_ota.Providers.Cache.{Cache}
use dash_ota.Signing.{SignedRequestParts, request_signing_string}
use dash_ota.Store.{State, Outcome, done, failed}
use dash_ota.Store.Policies.{Url, enroll, device_public_key}
use dash_ota.Store.Sessions.{ConfirmScope, store_nonce, check_rate, max_safe_integer}
use dash_ota.Targeting.{DeviceContext}
use dash_ota.Routes.Auth.{
  authenticate, check_install, check_headers, check_key, admit, is_signed, is_stale,
  signature_headers,
}
use dash_ota.Routes.Device.{
  EnrollRequest, CheckRequest, CheckResponse, bundle_of, post_enroll, enroll_authorized, post_check,
  check_device, check_install_id, device_of,
}
use dash_ota.Client.Session.{
  Keystore, Device, Storage, Stamp, CheckBody, EnrollBody, Response, ok, not_ok, returned, Server,
  signing_string, signed_request, read_again, read_first, signed_post, check_for_update, check_body,
  enroll_body, enroll_if_needed,
}

-- The status and the code that a client sees of an outcome.
abbrev pub respond {ℓ} : {A : Type ℓ} → Outcome A → Response A
respond (done a) = ok a
respond (failed f) = not_ok f.status (some f.code)

abbrev pub is_enrolled : Outcome Text → Response Bool
is_enrolled (done _) = ok true
is_enrolled (failed f) = not_ok f.status (some f.code)

-- The fields of a check that the backend reads.
abbrev pub read_check : CheckBody → CheckRequest
read_check b = record {
  runtime_version = some b.runtime_version;
  platform = some b.platform;
  channel = some b.channel;
  app_version = b.app_version;
  build_number = b.build_number;
  current_bundle_version = some b.current_bundle_version;
  current_bundle_id = some b.current_bundle_id;
}

abbrev pub read_enroll : EnrollBody → EnrollRequest
read_enroll b = record {
  install_id = b.install_id;
  platform = b.platform;
  channel = b.channel;
  device_public_key_b64 = b.device_public_key_b64;
  enroll_token = b.enroll_token;
}

-- The texts that the backend tests in a check are not empty.
pub record IsNamed (device : Device) : Type 0 where
  pub runtime_version : is_empty device.runtime_version ≡ false
  pub platform : is_empty device.platform ≡ false
  pub channel : is_empty device.channel ≡ false

-- A limit of 0 lets everything pass.
pub check_rate_off :
    (c : Cache) (scope identity : Text) (limit window_ms now : ℕ)
    → limit ≡ 0
    → check_rate c scope identity limit window_ms now
      ≡ (c, record { allowed = true; remaining = max_safe_integer; reset_ms = 0 })
unfolding check_rate
check_rate_off c scope identity limit window_ms now off = rw off refl

-- The device that a check describes.
pub device_of-read_check :
    (id : Text) (body : CheckBody)
    → is_empty body.runtime_version ≡ false
    → is_empty body.platform ≡ false
    → is_empty body.channel ≡ false
    → is_some (device_of id (some (read_check body))) ≡ true
unfolding device_of
device_of-read_check id body runtime platform channel = ground arith

-- What the backend computes with, its configuration, the hook of its host, and what its clock and random
-- source give at its n-th request.
pub record Host : Type 0 where
  pub sha256_hex : Bytes → Text
  pub to_number : Text → Number
  pub verify_ecdsa : (public_key message signature : Text) → Bool
  pub text_hash : Text → Text
  pub locale_le : Text → Text → Bool
  pub print_scope : ConfirmScope → Text
  pub parse_scope : Text → Option ConfirmScope
  pub parse_url : Text → Option Url
  pub config : BackendConfig
  pub authorize : Option (EnrollRequest → Bool)
  pub parse : Bytes → Option CheckRequest
  pub times : ℕ → ℕ
  pub tokens : ℕ → Text
  pub nonces : ℕ → Text
  pub iso : ℕ → Text

module _ (host : Host) where
  -- The backend as the client's server, with the number of requests that it has handled.
  abbrev pub backend : Server (State × ℕ) CheckResponse
  backend = record {
    enroll = λ w body.
        let (st', out) =
          post_enroll host.config host.authorize w.0 none (some (read_enroll body)) (host.iso w.1)
            (host.times w.1) in
        ((st', suc w.1), is_enrolled out);
    post = λ w r.
        let (st', out) =
          post_check host.sha256_hex host.to_number host.verify_ecdsa host.text_hash host.locale_le
            host.print_scope host.parse_scope host.parse_url host.config (host.tokens w.1)
            (host.nonces w.1) w.0 r (host.parse r.raw_body) (host.times w.1) in
        ((st', suc w.1), respond out);
  }

  -- A stamp that the backend's n-th request finds fresh: its time is within the skew and its nonce is new.
  pub record IsFresh (st : State) (n : ℕ) (stamp : Stamp) : Type 0 where
    pub nonce : is_empty stamp.nonce ≡ false
    pub timestamp : is_empty stamp.timestamp ≡ false
    pub in_time :
        is_stale host.config.timestamp_skew_ms (host.to_number stamp.timestamp) (host.times n)
        ≡ false
    pub first : (store_nonce host.config st.cache stamp.nonce (host.times n)).1 ≡ true

  -- The device's key pair: what it signs verifies under its public key, and the two sides hash alike.
  pub record IsSigner (keystore : Keystore) (public_key : Text) : Type 0 where
    pub key : is_empty public_key ≡ false
    pub signature : (m : Text) → is_empty (keystore.sign m) ≡ false
    pub verified : (m : Text) → host.verify_ecdsa public_key m (keystore.sign m) ≡ true
    pub hashed : (t : Text) → host.sha256_hex (keystore.utf8 t) ≡ keystore.sha256_hex t
