-- ===== src/Client/Session.antt =====
-- packages/rn/src/otaClient.ts: enrolment, signed requests, and the two calls that send them. What the
-- native module computes (the key, hashes, signatures), the texts that clocks and random sources give, and
-- the printing of JSON are parameters. The server is one too: a state and the answers of its endpoints. A
-- request that the network loses, and storage that fails, are not modelled.
pub mod Backend
pub mod Recovery
pub mod Starts
use dash_ota.Base.{
  ℕ, Bool, true, false, not, ◌&&◌, Option, none, some, List, [], ◌∷◌, ◌++◌, map, Text, text,
  is_empty, leb, ltb, ◌==◌, ◌===◌, if◌then◌else◌,
}
use dash_ota.Base.Int.{ℤ}
use dash_ota.Codes.{Code, not_enrolled}
use dash_ota.Providers.{Bytes}
use dash_ota.Signing.{upper, join_lines}
use dash_ota.Store.Adoption.{ConfirmStatus}
use dash_ota.Routes.{Request}

-- `OTA_PROTOCOL`
abbrev pub ota_protocol : ℕ
ota_protocol = 2

-- `signingString`
unfoldable pub signing_string : (method path install_id nonce timestamp body_sha256 : Text) → Text
signing_string method path install_id nonce timestamp body_sha256 =
    join_lines (map upper method ∷ path ∷ install_id ∷ nonce ∷ timestamp ∷ body_sha256 ∷ [])

-- The two keys of the host's storage.
pub record Storage : Type 0 where
  pub install_id : Option Text
  pub enrolled : Option Text

-- What the native module knows of the device and the build, and the app's version.
pub record Device : Type 0 where
  pub platform : Text
  pub channel : Text
  pub runtime_version : Text
  pub app_version : Text
  pub build_number : ℤ
  pub public_key : Text
  pub enroll_token : Option Text

-- `makeNonce()` and `String(Date.now())` of one request.
pub record Stamp : Type 0 where
  pub nonce : Text
  pub timestamp : Text

-- `makeNonce`; the native nonce is `none` where the call throws, and `fallback` is the built text.
unfoldable pub make_nonce : Option Text → (fallback : Text) → Text
make_nonce none fallback = fallback
make_nonce (some native) fallback = if is_empty native then fallback else native

-- `getInstallId`; `fresh` is the id that it would make up.
unfoldable pub get_install_id : Storage → (fresh : Text) → Storage × Text
get_install_id storage fresh = elim storage.install_id [
  | none ↦ (record storage { install_id = some fresh }, fresh)
  | some id ↦
      if is_empty id then (record storage { install_id = some fresh }, fresh) else (storage, id)
]

-- The body of an enrolment, less the attestation and the hardware flag.
pub record EnrollBody : Type 0 where
  pub install_id : Text
  pub platform : Text
  pub channel : Text
  pub device_public_key_b64 : Text
  pub enroll_token : Option Text

-- The body of `checkForUpdate`.
pub record CheckBody : Type 0 where
  pub install_id : Text
  pub platform : Text
  pub channel : Text
  pub runtime_version : Text
  pub app_version : Text
  pub build_number : ℤ
  pub current_bundle_version : ℤ
  pub protocol : ℕ
  pub current_bundle_id : Text
  pub current_bundle_sha256 : Text

-- The body of `confirm`.
pub record ConfirmBody : Type 0 where
  pub install_id : Text
  pub bundle_id : Text
  pub runtime_version : Text
  pub status : ConfirmStatus
  pub server_nonce : Text
  pub reason : Option Text

-- A response: its body where `res.ok`, else the status and the `code` of the body, if it has one.
pub data Response {ℓ} (A : Type ℓ) : Type ℓ where
  ok : A → Response A
  not_ok : (status : ℕ) → (code : Option Code) → Response A

-- What the calls throw.
pub data Failure : Type 0 where
  enroll_failed : (status : ℕ) → Failure
  post_failed : (path : Text) → (status : ℕ) → Failure

pub data Result {ℓ} (A : Type ℓ) : Type ℓ where
  returned : A → Result A
  thrown : Failure → Result A

-- The endpoints of a server with states `W`: enrolment, and a signed POST with answers `A`.
pub record Server {ℓ} (W : Type ℓ) (A : Type 0) : Type ℓ where
  pub enroll : W → EnrollBody → W × Response Bool
  pub post : W → Request → W × Response A

abbrev is_not_enrolled : Option Code → Bool
is_not_enrolled (some not_enrolled) = true
is_not_enrolled _ = false

-- The test before the retry.
abbrev pub is_forgotten : ℕ → Option Code → Bool
is_forgotten status code = status == 401 && is_not_enrolled code

abbrev pub same_text : Option Text → Text → Bool
same_text none t = false
same_text (some s) t = s === t

abbrev pub enroll_body : Device → (install_id : Text) → EnrollBody
enroll_body device install_id = record {
  install_id = install_id;
  platform = device.platform;
  channel = device.channel;
  device_public_key_b64 = device.public_key;
  enroll_token = device.enroll_token;
}

abbrev pub check_body :
    Device → (install_id : Text) → ℤ → (bundle_id bundle_sha256 : Text) → CheckBody
check_body device install_id current_bundle_version bundle_id bundle_sha256 = record {
  install_id = install_id;
  platform = device.platform;
  channel = device.channel;
  runtime_version = device.runtime_version;
  app_version = device.app_version;
  build_number = device.build_number;
  current_bundle_version = current_bundle_version;
  protocol = ota_protocol;
  current_bundle_id = bundle_id;
  current_bundle_sha256 = bundle_sha256;
}

-- What the native module computes with: SHA-256 of a text, the signature of a text under the device's key,
-- and the bytes that a text is sent as.
pub record Keystore : Type 0 where
  pub sha256_hex : Text → Text
  pub sign : Text → Text
  pub utf8 : Text → Bytes

module _ (keystore : Keystore) where
  -- The marker of an enrolment.
  abbrev pub marker : (install_id public_key : Text) → Text
  marker install_id public_key = keystore.sha256_hex (install_id ++ (text ":" ++ public_key))

  -- The request that `signedPost` sends.
  abbrev pub signed_request : (path install_id : Text) → Stamp → (raw : Text) → Request
  signed_request path install_id stamp raw = record {
    method = text "POST";
    path = path;
    install_id = some install_id;
    nonce = some stamp.nonce;
    timestamp = some stamp.timestamp;
    signature = some (
        keystore.sign (
          signing_string (text "POST") path install_id stamp.nonce stamp.timestamp
            (keystore.sha256_hex raw)));
    download_token = none;
    range = none;
    raw_body = keystore.utf8 raw;
  }

  module _ {ℓ} {W : Type ℓ} {A : Type 0} (server : Server W A) (device : Device) where
    -- The end of `enrollIfNeeded`: the marker is kept where the server took the key.
    abbrev pub keep_marker : Storage → Text → W × Response Bool → (Storage × W) × Result Bool
    keep_marker storage mark (w, ok _) =
        ((record storage { enrolled = some mark }, w), returned true)
    keep_marker storage mark (w, not_ok status code) = ((storage, w), thrown (enroll_failed status))

    -- `enrollIfNeeded`
    unfoldable pub enroll_if_needed :
        (install_id : Text) (force : Bool) → Storage → W → (Storage × W) × Result Bool
    unfolding ◌===◌
    enroll_if_needed install_id force storage w =
        let mark = marker install_id device.public_key in
        if not force && same_text storage.enrolled mark
        then ((storage, w), returned true)
        else keep_marker storage mark (server.enroll w (enroll_body device install_id))

    abbrev name_result : Text → (Storage × W) × Result Bool → (Storage × W) × Result Text
    name_result install_id (sw, returned _) = (sw, returned install_id)
    name_result install_id (sw, thrown f) = (sw, thrown f)

    -- `createClientContext`, which answers the install id of the context.
    unfoldable pub create_client_context :
        (fresh : Text) → Storage → W → (Storage × W) × Result Text
    unfolding enroll_if_needed get_install_id
    create_client_context fresh storage w =
        let (storage', install_id) = get_install_id storage fresh in
        name_result install_id (enroll_if_needed install_id false storage' w)

    -- `signedPost` after the retry.
    abbrev pub read_again : Text → Storage → W × Response A → (Storage × W) × Result A
    read_again path storage (w, ok a) = ((storage, w), returned a)
    read_again path storage (w, not_ok status code) =
        ((storage, w), thrown (post_failed path status))

    -- The second request, once the re-enrolment has ended.
    abbrev pub retry :
        (path install_id : Text)
        → Stamp
        → (raw : Text) → (Storage × W) × Result Bool
        → (Storage × W) × Result A
    retry path install_id stamp raw ((storage, w), returned _) =
        read_again path storage (server.post w (signed_request path install_id stamp raw))
    retry path install_id stamp raw (sw, thrown f) = (sw, thrown f)

    unfoldable pub read_first :
        (path install_id : Text)
        → Stamp
        → (raw : Text) → Storage
        → W × Response A
        → (Storage × W) × Result A
    unfolding enroll_if_needed
    read_first path install_id stamp raw storage (w, ok a) = ((storage, w), returned a)
    read_first path install_id stamp raw storage (w, not_ok status code) =
        if is_forgotten status code
        then retry path install_id stamp raw (enroll_if_needed install_id true storage w)
        else ((storage, w), thrown (post_failed path status))

    -- `signedPost`; the second stamp is that of the retry.
    unfoldable pub signed_post :
        (path install_id : Text)
        → (first second : Stamp) → (raw : Text) → Storage
        → W
        → (Storage × W) × Result A
    unfolding read_first
    signed_post path install_id first second raw storage w =
        read_first path install_id second raw storage
          (server.post w (signed_request path install_id first raw))

    -- `checkForUpdate`
    unfoldable pub check_for_update :
        (print : CheckBody → Text) (install_id : Text)
        → (first second : Stamp) → ℤ
        → (bundle_id bundle_sha256 : Text) → Storage
        → W
        → (Storage × W) × Result A
    unfolding signed_post
    check_for_update print install_id first second version bundle_id bundle_sha256 storage w =
        signed_post (text "/ota/v2/check") install_id first second
          (print (check_body device install_id version bundle_id bundle_sha256)) storage w

    -- `confirm`
    unfoldable pub confirm :
        (print : ConfirmBody → Text) (install_id : Text)
        → (first second : Stamp) → (bundle_id : Text) → ConfirmStatus
        → (server_nonce : Text) → (reason : Option Text) → Storage
        → W
        → (Storage × W) × Result A
    unfolding signed_post
    confirm print install_id first second bundle_id status server_nonce reason storage w =
        signed_post (text "/ota/v2/confirm") install_id first second
          (print (record {
            install_id = install_id;
            bundle_id = bundle_id;
            runtime_version = device.runtime_version;
            status = status;
            server_nonce = server_nonce;
            reason = reason;
          }))
          storage w
