-- ===== src/Client/Session/Recovery.antt =====
-- packages/rn/src/otaClient.ts against packages/backend/src/routes.ts: a check ends with an answer whether
-- or not the backend still knows the device.
use dash_ota.Base.{
  ℕ, suc, ◌≡◌, ◌⊎◌, inl, inr, ap, ◌∙◌, arith, true, false, none, some, Text, text, is_empty,
  is_some,
}
use dash_ota.Base.Int.{ℤ}
use dash_ota.Codes.{not_enrolled}
use dash_ota.Store.{State}
use dash_ota.Store.Policies.{enroll, device_public_key}
use dash_ota.Routes.Device.{CheckResponse, enroll_authorized, device_of}
use dash_ota.Client.Session.{
  Keystore, Device, Storage, Stamp, CheckBody, Response, ok, not_ok, returned, read_again,
  read_first, signed_post, check_for_update, check_body, enroll_body, enroll_if_needed,
}
use dash_ota.Client.Session.Backend.{
  read_check, read_enroll, IsNamed, device_of-read_check, Host, backend, IsFresh, IsSigner,
}
use dash_ota.Client.Session.Backend.Answers.{
  post_enroll-taken, device_public_key-enroll, post-known, post-unknown,
}

module _ (host : Host) (keystore : Keystore) (device : Device)
    (signer : IsSigner host keystore device.public_key) where
  read_again-ok :
      (path : Text) (storage : Storage) (answer : (State × ℕ) × Response CheckResponse)
      (response : CheckResponse)
      → answer.1 ≡ ok response
      → (read_again keystore (backend host) device path storage answer).1 ≡ returned response
  read_again-ok path storage (w, ok r) response e = ground arith
  read_again-ok path storage (w, not_ok status code) response e = absurd (ground arith)

  -- A device that the backend has forgotten enrols again, and its second request is answered.
  read_first-forgotten :
      (path id : Text) (stamp : Stamp) (raw : Text) (storage : Storage) (st : State) (n : ℕ)
      → host.config.check_rate_limit ≡ 0
      → host.config.enroll_rate_limit ≡ 0
      → enroll_authorized host.config host.authorize (read_enroll (enroll_body device id)) ≡ true
      → is_empty id ≡ false
      → IsFresh host st (suc n) stamp
      → ((i : Text) → is_some (device_of i (host.parse (keystore.utf8 raw))) ≡ true)
      → (response : CheckResponse) × ((read_first keystore
            (backend host)
            device
            path
            id
            stamp
            raw
            storage
            ((st, n), not_ok 401 (some not_enrolled))).1
          ≡ returned response)
  unfolding read_first enroll_if_needed enroll
  read_first-forgotten path id stamp raw storage st n unlimited free allowed named fresh described =
      let st' = enroll st id device.platform device.channel device.public_key (host.iso n) in
      let (response, answered) =
        post-known host keystore device signer path id stamp raw st' (suc n) unlimited named
          (record {
            nonce = fresh.nonce;
            timestamp = fresh.timestamp;
            in_time = fresh.in_time;
            first = fresh.first;
          })
          (device_public_key-enroll host keystore device signer st id device.platform device.channel
            device.public_key (host.iso n))
          described in
      (
        response,
        rw
            (post_enroll-taken host keystore device signer st id (host.iso n) (host.times n) free
              allowed)
            (read_again-ok path _ _ response answered),
      )

  read_first-known :
      (path id : Text) (stamp : Stamp) (raw : Text) (storage : Storage)
      (answer : (State × ℕ) × Response CheckResponse) (response : CheckResponse)
      → answer.1 ≡ ok response
      → (read_first keystore (backend host) device path id stamp raw storage answer).1
        ≡ returned response
  unfolding read_first
  read_first-known path id stamp raw storage (w, ok r) response e = ground arith
  read_first-known path id stamp raw storage (w, not_ok status code) response e =
      absurd (ground arith)

  -- Take the modelled backend as the server, with signatures required and rate limits switched off, and a
  -- device whose signatures are not empty and verify under its public key, which is not empty, and whose
  -- hashes are the backend's. Let the backend parse the body as it was printed; let the install id, the
  -- platform, the channel and the runtime version not be empty. Let the backend either not know the install
  -- id, or know it with the device's key; let it authorise the device's enrolment; and let the stamps of the
  -- first request and of a possible second one be fresh for it, as its n-th request and the second one after
  -- that. Then `checkForUpdate` returns an answer of the backend: a forgotten device enrols again and its
  -- second request is answered.
  pub check_for_update-answered :
      (print : CheckBody → Text) (id : Text) (first second : Stamp) (version : ℤ)
      (bundle_id sha256 : Text) (storage : Storage) (st : State) (n : ℕ)
      → host.config.require_request_signature ≡ true
      → host.config.check_rate_limit ≡ 0
      → host.config.enroll_rate_limit ≡ 0
      → host.parse (keystore.utf8 (print (check_body device id version bundle_id sha256)))
        ≡ some (read_check (check_body device id version bundle_id sha256))
      → IsNamed device
      → is_empty id ≡ false
      → enroll_authorized host.config host.authorize (read_enroll (enroll_body device id)) ≡ true
      → (device_public_key st id ≡ none) ⊎ (device_public_key st id ≡ some device.public_key)
      → IsFresh host st n first
      → IsFresh host st (suc (suc n)) second
      → (response : CheckResponse) × ((check_for_update keystore
            (backend host)
            device
            print
            id
            first
            second
            version
            bundle_id
            sha256
            storage
            (st, n)).1
          ≡ returned response)
  unfolding check_for_update signed_post
  check_for_update-answered print id first second version bundle_id sha256 storage st n required
        unlimited free parses texts named allowed known fresh later =
      let body = check_body device id version bundle_id sha256 in
      let raw = print body in
      let described : (i : Text) → is_some (device_of i (host.parse (keystore.utf8 raw))) ≡ true =
        λ i.
          ap (λ b. is_some (device_of i b)) parses
          ∙ device_of-read_check i body texts.runtime_version texts.platform texts.channel in
      elim known [
        | inr enrolled ↦
            let (response, answered) =
              post-known host keystore device signer (text "/ota/v2/check") id first raw st n
                unlimited named fresh enrolled described in
            (
              response,
              read_first-known (text "/ota/v2/check") id second raw storage _ response answered,
            )
        | inl forgotten ↦
            rw
              (post-unknown host keystore device signer (text "/ota/v2/check") id first raw st n
                required named fresh forgotten)
              (read_first-forgotten (text "/ota/v2/check") id second raw storage st (suc n)
                unlimited free allowed named later described)
      ]
