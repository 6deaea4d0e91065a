-- ===== src/Routes/Device/Answers.antt =====
-- What the check answers.
use dash_ota.Base.{
  ℕ, ◌≡◌, refl, sym, ap, ◌∙◌, Bool, true, false, Option, none, some, Text, text, subst,
  if◌then◌else◌, get_or, arith, Bool-cases, inl, inr,
}
use dash_ota.Base.Int.{pos}
use dash_ota.Base.Number.{Number}
use dash_ota.Config.{BackendConfig}
use dash_ota.Manifest.{SignedManifest}
use dash_ota.Providers.{Bytes, ReleaseRecord, Database, NativeVersionPolicy}
use dash_ota.Store.{State, Outcome, done, failed}
use dash_ota.Store.Policies.{Url, device_public_key, resolve_native_policy}
use dash_ota.Store.Publishing.{Inv}
use dash_ota.Store.Serving.{pick_eligible}
use dash_ota.Store.Serving.Delivery.{IsOffer, pick_eligible-IsOffer}
use dash_ota.Store.Sessions.{ConfirmScope}
use dash_ota.Targeting.{DeviceContext}
use dash_ota.Routes.{Request, given, Carries, given_iff}
use dash_ota.Routes.Auth.{
  SignatureHeaders, signature_headers, is_signed, is_stale, admit, check_key, check_headers,
  check_install, authenticate,
}
use dash_ota.Routes.Device.{
  CheckRequest, CheckResponse, limited, device_of, bundle_of, answer_check, check_device,
  check_install_id, post_check,
}

pub db-if :
    {A : Type 0} {db : Database} (b : Bool) (x y : State × A)
    → x.0.db ≡ db
    → y.0.db ≡ db
    → (if b then x else y).0.db ≡ db
db-if true x y h k = h
db-if false x y h k = k

module _ (sha256_hex : Bytes → Text) (to_number : Text → Number)
    (verify_ecdsa : (public_key message signature : Text) → Bool) where
  db-check_key :
      (config : BackendConfig) (st : State) (r : Request) (id : Text) (h : SignatureHeaders)
      (key : Option Text) (now : ℕ)
      → (check_key sha256_hex to_number verify_ecdsa config st r id h key now).0.db ≡ st.db
  unfolding check_key admit
  db-check_key config st r id h none now = refl
  db-check_key config st r id h (some k) now =
      elim (Bool-cases (is_signed sha256_hex to_number verify_ecdsa r id h k)) [
        | inl signed ↦ rw signed refl
        | inr forged ↦ rw forged refl
      ]

  db-check_headers :
      (config : BackendConfig) (st : State) (r : Request) (id : Text) (h : Option SignatureHeaders)
      (now : ℕ)
      → (check_headers sha256_hex to_number verify_ecdsa config st r id h now).0.db ≡ st.db
  unfolding check_headers
  db-check_headers config st r id none now = refl
  db-check_headers config st r id (some h) now =
      elim (Bool-cases (is_stale config.timestamp_skew_ms (to_number h.timestamp) now)) [
        | inl stale ↦ rw stale refl
        | inr fresh ↦ rw fresh (db-check_key config st r id h (given (device_public_key st id)) now)
      ]

  db-check_install :
      (config : BackendConfig) (st : State) (r : Request) (id : Option Text) (now : ℕ)
      → (check_install sha256_hex to_number verify_ecdsa config st r id now).0.db ≡ st.db
  unfolding check_install
  db-check_install config st r none now = refl
  db-check_install config st r (some id) now =
      db-if config.require_request_signature
        (check_headers sha256_hex to_number verify_ecdsa config st r id (signature_headers r) now)
        (st, done id) (db-check_headers config st r id (signature_headers r) now) refl

  -- Authentication touches the cache only.
  pub db-authenticate :
      (config : BackendConfig) (st : State) (r : Request) (now : ℕ)
      → (authenticate sha256_hex to_number verify_ecdsa config st r now).0.db ≡ st.db
  unfolding authenticate
  db-authenticate config st r now = db-check_install config st r (given r.install_id) now

-- The device as the body of a check gives it.
pub data IsDescribed (device : DeviceContext) : Option CheckRequest → Type 0 where
  describes :
      (body : CheckRequest)
      → Carries body.platform device.platform
      → Carries body.channel device.channel
      → Carries body.runtime_version device.runtime_version
      → device.app_version ≡ body.app_version
      → device.build_number ≡ body.build_number
      → device.current_bundle_version ≡ get_or body.current_bundle_version (pos 0)
      → IsDescribed device (some body)

pub device_of-IsDescribed :
    (id : Text) (body : Option CheckRequest) (device : DeviceContext)
    → device_of id body ≡ some device
    → IsDescribed device body × (device.install_id ≡ id)
unfolding device_of
device_of-IsDescribed id none device e = cc e
device_of-IsDescribed id (some body) device e = (
  describes body ((given_iff body.platform device.platform).0 (ground arith))
      ((given_iff body.channel device.channel).0 (ground arith))
      ((given_iff body.runtime_version device.runtime_version).0 (ground arith)) (ground arith)
      (ground arith) ground arith,
  ground arith,
)

module _ (sha256_hex : Bytes → Text) (to_number : Text → Number)
    (verify_ecdsa : (public_key message signature : Text) → Bool) (text_hash : Text → Text)
    (locale_le : Text → Text → Bool) (print_scope : ConfirmScope → Text)
    (parse_scope : Text → Option ConfirmScope) (parse_url : Text → Option Url)
    (config : BackendConfig) where
  -- The update of an answer is what was chosen for the device of the request.
  abbrev pub IsChosen :
      Database → (token : Text) → CheckResponse → SignedManifest → Option DeviceContext → Type 0
  IsChosen db token response sm described =
      (device : DeviceContext) × (described ≡ some device)
      × (r : ReleaseRecord) × (pick_eligible text_hash locale_le db device ≡ some r)
      × (r.signed_manifest ≡ sm)
      × (response.download_token ≡ some token)

  answer_check-IsChosen :
      (token nonce : Text) (st : State) (device : DeviceContext) (current : Text)
      (policy : NativeVersionPolicy) (chosen : Option ReleaseRecord) (now : ℕ) (sm : SignedManifest)
      → pick_eligible text_hash locale_le st.db device ≡ chosen
      → (answer_check print_scope config token nonce st device current policy chosen now).1.update
        ≡ some sm
      → IsChosen st.db token
          (answer_check print_scope config token nonce st device current policy chosen now).1
          sm
          (some device)
  unfolding answer_check
  answer_check-IsChosen token nonce st device current policy none now sm e u = cc
  answer_check-IsChosen token nonce st device current policy (some r) now sm e u =
      (device, refl, r, e, cc, refl)

  check_device-IsChosen :
      (token nonce : Text) (st : State) (current : Text) (device : Option DeviceContext) (now : ℕ)
      (response : CheckResponse) (sm : SignedManifest)
      → (check_device sha256_hex to_number verify_ecdsa text_hash locale_le print_scope parse_scope
          parse_url config token nonce st current device now).1
        ≡ done response
      → response.update ≡ some sm
      → IsChosen st.db token response sm device
  unfolding check_device
  check_device-IsChosen token nonce st current none now response sm e u = cc
  check_device-IsChosen token nonce st current (some device) now response sm e u =
      let policy = resolve_native_policy parse_url st device.channel device.build_number in
      let chosen = pick_eligible text_hash locale_le st.db device in
      let answer =
        (answer_check print_scope config token nonce st device current policy chosen now).1 in
      let same : answer ≡ response = cc e in
      subst (λ a. IsChosen st.db token a sm (some device)) same
        (answer_check-IsChosen token nonce st device current policy chosen now sm refl
          (ap (λ (a : CheckResponse). a.update) same ∙ u))

  check_install_id-IsChosen :
      (token nonce : Text) (x : State × Outcome Text) (body : Option CheckRequest) (now : ℕ)
      (response : CheckResponse) (sm : SignedManifest)
      → (check_install_id sha256_hex to_number verify_ecdsa text_hash locale_le print_scope
          parse_scope parse_url config token nonce x body now).1
        ≡ done response
      → response.update ≡ some sm
      → (id : Text) × (x.1 ≡ done id) × IsChosen x.0.db token response sm (device_of id body)
  unfolding check_install_id limited
  check_install_id-IsChosen token nonce (st, failed f) body now response sm e u = cc
  check_install_id-IsChosen token nonce (st, done id) body now response sm e u =
      let (st', stopped) = limited config st (text "check") id config.check_rate_limit now in
      elim (Bool-cases stopped) [
        | inl over ↦ cc (rw over at e)
        | inr under ↦ (
          id,
          refl,
          check_device-IsChosen token nonce st' (bundle_of body) (device_of id body) now response sm
              (rw under at e) u,
        )
      ]

  -- Assume the store's invariant. When the check answers an update, the request was authenticated as
  -- some install, and the update is the signed manifest of a release on offer to the device of that
  -- install with the platform, channel, runtime, app version, build and current bundle version (0
  -- when absent) that the body gives: published, running, targeted at that device, and with every
  -- blob in store; and the answer carries the download token.
  pub post_check-IsOffer :
      (token nonce : Text) (st : State) (r : Request) (body : Option CheckRequest) (now : ℕ)
      (response : CheckResponse) (sm : SignedManifest)
      → Inv sha256_hex st
      → (post_check sha256_hex to_number verify_ecdsa text_hash locale_le print_scope parse_scope
          parse_url config token nonce st r body now).1
        ≡ done response
      → response.update ≡ some sm
      → (device : DeviceContext) × IsDescribed device body
        × ((authenticate sha256_hex to_number verify_ecdsa config st r now).1
            ≡ done device.install_id)
        × (offered : ReleaseRecord) × IsOffer sha256_hex text_hash locale_le st device offered
        × (offered.signed_manifest ≡ sm)
        × (response.download_token ≡ some token)
  unfolding post_check
  post_check-IsOffer token nonce st r body now response sm inv e u =
      let reached = authenticate sha256_hex to_number verify_ecdsa config st r now in
      let (id, known, (device, described, offered, chosen, same, granted)) =
        check_install_id-IsChosen token nonce reached body now response sm e u in
      let here : pick_eligible text_hash locale_le st.db device ≡ some offered =
        ap (λ db. pick_eligible text_hash locale_le db device)
          (sym (db-authenticate sha256_hex to_number verify_ecdsa config st r now))
        ∙ chosen in
      (
        device,
        (device_of-IsDescribed id body device described).0,
        known ∙ ap done (sym (device_of-IsDescribed id body device described).1),
        offered,
        pick_eligible-IsOffer sha256_hex text_hash locale_le st device offered inv here,
        same,
        granted,
      )
