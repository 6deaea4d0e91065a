-- ===== src/Routes/Auth/Replays.antt =====
-- What an authenticated request proves, and that it is authenticated once.
use dash_ota.Base.{
  ℕ, ◌+◌, ◌*◌, ◌≤◌, ◌≡◌, ◌≢◌, refl, sym, ap, ◌∙◌, subst, Bool, true, false, Option, none, some,
  List, [], ◌∷◌, Text, arith, All, Bool-cases, inl, inr,
}
use dash_ota.Base.Int.{pos, negsuc}
use dash_ota.Base.Number.{Number, int, fraction, infinity, nan}
use dash_ota.Config.{BackendConfig}
use dash_ota.Providers.{Bytes}
use dash_ota.Providers.Cache.{Cache, Call, run}
use dash_ota.Providers.Cache.Replay.{no_replay}
use dash_ota.Store.{State, done}
use dash_ota.Store.Policies.{device_public_key}
use dash_ota.Store.Sessions.{store_nonce}
use dash_ota.Routes.{Request, given}
use dash_ota.Routes.Auth.{
  is_stale, SignatureHeaders, signature_headers, admit, is_signed, check_key, check_headers,
  check_install, authenticate,
}

-- A timestamp is acceptable within a window of twice the skew.
window :
    (skew : ℕ) (ts : Number) (now later : ℕ)
    → is_stale skew ts now ≡ false
    → is_stale skew ts later ≡ false
    → later ≤ now + 2 * skew
unfolding is_stale
window skew (int (pos n)) now later h k = ground arith
window skew (int (negsuc n)) now later h k = ground arith
window skew (fraction (pos n) half) now later h k = ground arith
window skew (fraction (negsuc n) half) now later h k = ground arith
window skew (infinity negative) now later h k = absurd (ground arith)
window skew nan now later h k = absurd (ground arith)

-- What the accepted headers come from.
nonce-signature_headers :
    (r : Request) (h : SignatureHeaders)
    → signature_headers r ≡ some h
    → (given r.nonce ≡ some h.nonce) × (given r.timestamp ≡ some h.timestamp)
unfolding signature_headers
nonce-signature_headers r h e = (ground arith, ground arith)

agree :
    (r r' : Request) (h h' : SignatureHeaders)
    → r.nonce ≡ r'.nonce
    → r.timestamp ≡ r'.timestamp
    → signature_headers r ≡ some h
    → signature_headers r' ≡ some h'
    → (h.nonce ≡ h'.nonce) × (h.timestamp ≡ h'.timestamp)
agree r r' h h' nonces times e e' =
    let (n, t) = nonce-signature_headers r h e in
    let (n', t') = nonce-signature_headers r' h' e' in (cc (ap given nonces), cc (ap given times))

timely_until :
    (later until : ℕ) (calls : List (ℕ × Call))
    → later ≤ until
    → All (λ call. call.0 ≤ later) calls
    → All (λ call. call.0 ≤ until) calls
timely_until later until [] h hs = tt
timely_until later until (call ∷ calls) h (k, ks) =
    (omega arith, timely_until later until calls h ks)

-- A nonce that was stored is not stored again before its time.
stored_once :
    (config : BackendConfig) (c c' : Cache) (nonce : Text) (now later : ℕ) (calls : List (ℕ × Call))
    → (store_nonce config c nonce now).1 ≡ true
    → c' ≡ run (store_nonce config c nonce now).0 calls
    → later ≤ now + config.nonce_ttl_ms
    → All (λ call. call.0 ≤ later) calls
    → (store_nonce config c' nonce later).1 ≡ false
unfolding store_nonce
stored_once config c c' nonce now later calls first reached h timely = rw reached (
    no_replay c nonce config.nonce_ttl_ms now calls config.nonce_ttl_ms later first
      (timely_until later (now + config.nonce_ttl_ms) calls h timely) h)

module _ (sha256_hex : Bytes → Text) (to_number : Text → Number)
    (verify_ecdsa : (public_key message signature : Text) → Bool) where
  -- What an accepted request has: the three headers, a fresh timestamp, the install's key and the
  -- signature under it, and a nonce that was not on record.
  pub record IsAdmitted (config : BackendConfig) (st : State) (r : Request) (now : ℕ) (id : Text)
      : Type 0 where
    pub headers : SignatureHeaders
    pub public_key : Text
    pub sent : signature_headers r ≡ some headers
    pub named : given r.install_id ≡ some id
    pub fresh : is_stale config.timestamp_skew_ms (to_number headers.timestamp) now ≡ false
    pub enrolled : given (device_public_key st id) ≡ some public_key
    pub signed : is_signed sha256_hex to_number verify_ecdsa r id headers public_key ≡ true
    pub first : (store_nonce config st.cache headers.nonce now).1 ≡ true
    pub registered :
        (authenticate sha256_hex to_number verify_ecdsa config st r now).0
        ≡ record st { cache = (store_nonce config st.cache headers.nonce now).0 }

  check_key-done :
      (config : BackendConfig) (st : State) (r : Request) (id : Text) (h : SignatureHeaders)
      (key : Option Text) (now : ℕ) (id' : Text)
      → (check_key sha256_hex to_number verify_ecdsa config st r id h key now).1 ≡ done id'
      → (k : Text) × (key ≡ some k)
        × (is_signed sha256_hex to_number verify_ecdsa r id h k ≡ true)
        × ((store_nonce config st.cache h.nonce now).1 ≡ true)
        × (id ≡ id')
        × ((check_key sha256_hex to_number verify_ecdsa config st r id h key now).0
            ≡ record st { cache = (store_nonce config st.cache h.nonce now).0 })
  unfolding check_key admit
  check_key-done config st r id h none now id' e = cc
  check_key-done config st r id h (some k) now id' e =
      elim (Bool-cases (is_signed sha256_hex to_number verify_ecdsa r id h k)) [
        | inr forged ↦ cc (rw forged at e)
        | inl signed ↦ elim (Bool-cases (store_nonce config st.cache h.nonce now).1) [
          | inr again ↦ cc (rw (signed, again) at e)
          | inl first ↦ (k, refl, signed, first, cc (rw (signed, first) at e), rw signed refl)
        ]
      ]

  check_headers-done :
      (config : BackendConfig) (st : State) (r : Request) (id : Text)
      (headers : Option SignatureHeaders) (now : ℕ) (id' : Text)
      → (check_headers sha256_hex to_number verify_ecdsa config st r id headers now).1 ≡ done id'
      → (h : SignatureHeaders) × (headers ≡ some h)
        × (is_stale config.timestamp_skew_ms (to_number h.timestamp) now ≡ false)
        × (check_headers sha256_hex to_number verify_ecdsa config st r id headers now
            ≡ check_key sha256_hex to_number verify_ecdsa config st r id h
                (given (device_public_key st id))
                now)
  unfolding check_headers
  check_headers-done config st r id none now id' e = cc
  check_headers-done config st r id (some h) now id' e =
      elim (Bool-cases (is_stale config.timestamp_skew_ms (to_number h.timestamp) now)) [
        | inl stale ↦ cc (rw stale at e)
        | inr fresh ↦ (h, refl, fresh, rw fresh refl)
      ]

  check_install-done :
      (config : BackendConfig) (st : State) (r : Request) (named : Option Text) (now : ℕ)
      (id : Text)
      → config.require_request_signature ≡ true
      → (check_install sha256_hex to_number verify_ecdsa config st r named now).1 ≡ done id
      → (i : Text) × (named ≡ some i)
        × (check_install sha256_hex to_number verify_ecdsa config st r named now
            ≡ check_headers sha256_hex to_number verify_ecdsa config st r i
                (signature_headers r)
                now)
  unfolding check_install
  check_install-done config st r none now id required e = cc
  check_install-done config st r (some i) now id required e = (i, refl, rw required refl)

  -- What the tests of the code answered for an accepted request.
  pub authenticate-IsAdmitted :
      (config : BackendConfig) (st : State) (r : Request) (now : ℕ) (id : Text)
      → config.require_request_signature ≡ true
      → (authenticate sha256_hex to_number verify_ecdsa config st r now).1 ≡ done id
      → IsAdmitted config st r now id
  unfolding authenticate
  authenticate-IsAdmitted config st r now id required e =
      let (i, named, e1) = check_install-done config st r (given r.install_id) now id required e in
      let (h, sent, fresh, e2) =
        check_headers-done config st r i (signature_headers r) now id
          (sym (ap (λ x. x.1) e1) ∙ e) in
      let (k, enrolled, signed, first, same, stored) =
        check_key-done config st r i h (given (device_public_key st i)) now id
          (sym (ap (λ x. x.1) (e1 ∙ e2)) ∙ e) in
      subst (IsAdmitted config st r now) same (record {
        headers = h;
        public_key = k;
        sent = sent;
        named = named;
        fresh = fresh;
        enrolled = enrolled;
        signed = signed;
        first = first;
        registered = ap (λ x. x.0) (e1 ∙ e2) ∙ stored;
      })

  -- Assume that signatures are required and that a nonce is kept for at least twice the allowed skew.
  -- After a request was authenticated at `now`, no request with the same nonce and timestamp is
  -- authenticated at `later`, whatever calls of the cache come in between at times up to `later`.
  pub no_second_authentication :
      (config : BackendConfig) (st st' : State) (r r' : Request) (now later : ℕ) (id id' : Text)
      (calls : List (ℕ × Call))
      → config.require_request_signature ≡ true
      → 2 * config.timestamp_skew_ms ≤ config.nonce_ttl_ms
      → (authenticate sha256_hex to_number verify_ecdsa config st r now).1 ≡ done id
      → r.nonce ≡ r'.nonce
      → r.timestamp ≡ r'.timestamp
      → st'.cache
        ≡ run (authenticate sha256_hex to_number verify_ecdsa config st r now).0.cache calls
      → All (λ call. call.0 ≤ later) calls
      → (authenticate sha256_hex to_number verify_ecdsa config st' r' later).1 ≢ done id'
  no_second_authentication config st st' r r' now later id id' calls required kept e nonces times
        reached timely =
      λ e'.
        let a = authenticate-IsAdmitted config st r now id required e in
        let a' = authenticate-IsAdmitted config st' r' later id' required e' in
        let (same_nonce, same_time) = agree r r' a.headers a'.headers nonces times a.sent a'.sent in
        let soon : later ≤ now + 2 * config.timestamp_skew_ms =
          window config.timestamp_skew_ms (to_number a.headers.timestamp) now later a.fresh (
            subst (λ t. is_stale config.timestamp_skew_ms (to_number t) later ≡ false)
              (sym same_time) a'.fresh) in
        let again =
          stored_once config st.cache st'.cache a.headers.nonce now later calls a.first
            (reached ∙ ap (λ s. run s.cache calls) a.registered) (omega arith) timely in
        cc (ap (λ n. (store_nonce config st'.cache n later).1) same_nonce, again, a'.first)
