-- ===== src/Client/Session/Backend/Answers.antt =====
-- packages/rn/src/otaClient.ts against packages/backend/src/routes.ts: what the backend answers to the
-- client's requests.
use dash_ota.Base.{
  ℕ, suc, ◌≡◌, refl, ap, arith, true, false, Option, none, some, [], Text, text, is_empty, is_some,
  eq_iff,
}
use dash_ota.Base.Dict.{get-set}
use dash_ota.Codes.{not_enrolled}
use dash_ota.Providers.{InstallRecord}
use dash_ota.Signing.{request_signing_string}
use dash_ota.Store.{State, Outcome, done, failed}
use dash_ota.Store.Policies.{enroll, device_public_key}
use dash_ota.Targeting.{DeviceContext}
use dash_ota.Routes.Auth.{
  authenticate, check_install, check_headers, check_key, admit, is_signed, signature_headers,
}
use dash_ota.Routes.Device.{
  CheckRequest, CheckResponse, bundle_of, post_enroll, enroll_authorized, post_check, check_device,
  check_install_id, device_of,
}
use dash_ota.Client.Session.{
  Keystore, Device, Stamp, ok, not_ok, signing_string, signed_request, enroll_body,
}
use dash_ota.Client.Session.Backend.{
  respond, read_enroll, check_rate_off, Host, backend, IsFresh, IsSigner,
}

module _ (host : Host) (keystore : Keystore) (device : Device)
    (signer : IsSigner host keystore device.public_key) where
  is_signed-signed_request :
      (path id : Text) (stamp : Stamp) (raw : Text)
      → is_signed host.sha256_hex host.to_number host.verify_ecdsa
          (signed_request keystore path id stamp raw)
          id
          (record {
            nonce = stamp.nonce;
            timestamp = stamp.timestamp;
            signature = keystore.sign (
                signing_string
                  (text "POST")
                  path
                  id
                  stamp.nonce
                  stamp.timestamp
                  (keystore.sha256_hex raw));
          })
          device.public_key
        ≡ true
  unfolding is_signed signing_string request_signing_string
  is_signed-signed_request path id stamp raw = rw (signer.hashed raw) (signer.verified _)

  authenticate-known :
      (st : State) (n : ℕ) (path id : Text) (stamp : Stamp) (raw : Text)
      → is_empty id ≡ false
      → IsFresh host st n stamp
      → device_public_key st id ≡ some device.public_key
      → (authenticate host.sha256_hex host.to_number host.verify_ecdsa host.config st
          (signed_request keystore path id stamp raw)
          (host.times n)).1
        ≡ done id
  unfolding authenticate check_install check_headers check_key admit signature_headers
  authenticate-known st n path id stamp raw named fresh known = ground (
    arith,
    fresh.in_time,
    fresh.first,
    signer.key,
    signer.signature (
        signing_string (text "POST") path id stamp.nonce stamp.timestamp (keystore.sha256_hex raw)),
    is_signed-signed_request path id stamp raw,
  )

  authenticate-unknown :
      (st : State) (n : ℕ) (path id : Text) (stamp : Stamp) (raw : Text)
      → host.config.require_request_signature ≡ true
      → is_empty id ≡ false
      → IsFresh host st n stamp
      → device_public_key st id ≡ none
      → authenticate host.sha256_hex host.to_number host.verify_ecdsa host.config st
          (signed_request keystore path id stamp raw)
          (host.times n)
        ≡ (st, failed (record { status = 401; code = not_enrolled; missing = [] }))
  unfolding authenticate check_install check_headers check_key admit signature_headers
  authenticate-unknown st n path id stamp raw required named fresh unknown = ground (
    arith,
    signer.signature (
        signing_string (text "POST") path id stamp.nonce stamp.timestamp (keystore.sha256_hex raw)),
  )

  -- A check that is authenticated is answered, where checks have no limit.
  check_device-answers :
      (token nonce : Text) (st : State) (current : Text) (device : Option DeviceContext) (now : ℕ)
      → is_some device ≡ true
      → (response : CheckResponse) × ((check_device host.sha256_hex host.to_number host.verify_ecdsa
            host.text_hash host.locale_le host.print_scope host.parse_scope host.parse_url
            host.config token nonce st current device now).1
          ≡ done response)
  unfolding check_device
  check_device-answers token nonce st current none now described = absurd (ground arith)
  check_device-answers token nonce st current (some d) now described = (_, refl)

  check_install_id-answers :
      (token nonce : Text) (auth : State × Outcome Text) (id : Text) (body : Option CheckRequest)
      (now : ℕ)
      → host.config.check_rate_limit ≡ 0
      → ((i : Text) → is_some (device_of i body) ≡ true)
      → auth.1 ≡ done id
      → (response : CheckResponse) × ((check_install_id host.sha256_hex host.to_number
            host.verify_ecdsa host.text_hash host.locale_le host.print_scope host.parse_scope
            host.parse_url host.config token nonce auth body now).1
          ≡ done response)
  unfolding check_install_id
  check_install_id-answers token nonce (st, failed f) id body now unlimited described admitted =
      absurd (ground arith)
  check_install_id-answers token nonce (st, done i) id body now unlimited described admitted =
      let (response, answered) =
        check_device-answers token nonce st (bundle_of body) (device_of i body) now (described i) in
      (
        response,
        rw
            (check_rate_off st.cache (text "check") i host.config.check_rate_limit
              host.config.rate_limit_window_ms now unlimited)
            answered,
      )

  -- The key that was enrolled last is on record.
  pub device_public_key-enroll :
      (st : State) (id platform channel key created : Text)
      → device_public_key (enroll st id platform channel key created) id ≡ some key
  unfolding enroll
  device_public_key-enroll st id platform channel key created =
      let r : InstallRecord = record {
        install_id = id;
        device_public_key_b64 = key;
        platform = platform;
        channel = channel;
        created_at = created;
      } in
      ground (arith, eq_iff id id, get-set st.db.installs id id r)

  -- An enrolment that is authorised is taken, where enrolments have no limit.
  pub post_enroll-taken :
      (st : State) (id created : Text) (now : ℕ)
      → host.config.enroll_rate_limit ≡ 0
      → enroll_authorized host.config host.authorize (read_enroll (enroll_body device id)) ≡ true
      → post_enroll host.config host.authorize st none
          (some (read_enroll (enroll_body device id)))
          created
          now
        ≡ (enroll st id device.platform device.channel device.public_key created, done id)
  unfolding post_enroll
  post_enroll-taken st id created now unlimited allowed =
      rw
        (
          check_rate_off st.cache (text "enroll") id host.config.enroll_rate_limit
              host.config.rate_limit_window_ms now unlimited,
          allowed,
        )
        refl

  -- The answers of the backend to the client's requests, by what it knows of the device.
  pub post-known :
      (path id : Text) (stamp : Stamp) (raw : Text) (st : State) (n : ℕ)
      → host.config.check_rate_limit ≡ 0
      → is_empty id ≡ false
      → IsFresh host st n stamp
      → device_public_key st id ≡ some device.public_key
      → ((i : Text) → is_some (device_of i (host.parse (keystore.utf8 raw))) ≡ true)
      → (response : CheckResponse) × (((backend host).post
            (st, n)
            (signed_request keystore path id stamp raw)).1
          ≡ ok response)
  unfolding post_check
  post-known path id stamp raw st n unlimited named fresh known described =
      let (response, answered) =
        check_install_id-answers (host.tokens n) (host.nonces n)
          (authenticate host.sha256_hex host.to_number host.verify_ecdsa host.config st
            (signed_request keystore path id stamp raw) (host.times n))
          id (host.parse (keystore.utf8 raw)) (host.times n) unlimited described
          (authenticate-known st n path id stamp raw named fresh known) in
      (response, ap respond answered)

  pub post-unknown :
      (path id : Text) (stamp : Stamp) (raw : Text) (st : State) (n : ℕ)
      → host.config.require_request_signature ≡ true
      → is_empty id ≡ false
      → IsFresh host st n stamp
      → device_public_key st id ≡ none
      → (backend host).post (st, n) (signed_request keystore path id stamp raw)
        ≡ ((st, suc n), not_ok 401 (some not_enrolled))
  unfolding post_check check_install_id
  post-unknown path id stamp raw st n required named fresh unknown =
      rw (authenticate-unknown st n path id stamp raw required named fresh unknown) refl
