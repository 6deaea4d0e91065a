-- ===== src/Routes/Auth/Accepted.antt =====
-- packages/backend/src/routes.ts, `authenticate`: exactly which requests are accepted.
use dash_ota.Base.{
  ℕ, ◌+◌, ◌≤◌, ◌<◌, ◌≡◌, ◌↔◌, refl, sym, ap, ◌∙◌, Bool, true, false, some, Text, arith,
}
use dash_ota.Base.Int.{ℤ, pos_part, neg_part}
use dash_ota.Base.Number.{Number, int, fraction, infinity, nan}
use dash_ota.Config.{BackendConfig}
use dash_ota.Providers.{Bytes}
use dash_ota.Providers.Cache.{Cache}
use dash_ota.Providers.Cache.Unseen.{
  IsUnseen, recorded, register_nonce_iff, register_nonce-recorded,
}
use dash_ota.Signing.{request_signing_string}
use dash_ota.Store.{State, done}
use dash_ota.Store.Policies.{device_public_key}
use dash_ota.Store.Sessions.{store_nonce}
use dash_ota.Routes.{Request, Carries, given_iff}
use dash_ota.Routes.Auth.{
  is_stale, SignatureHeaders, signature_headers, admit, is_signed, check_key, check_headers,
  check_install, authenticate,
}
use dash_ota.Routes.Auth.Replays.{authenticate-IsAdmitted}

-- The time is at most `skew` away from `now`. A fraction lies between its floor and the next integer.
pub data IsWithin (skew now : ℕ) : Number → Type 0 where
  whole :
      (n : ℤ)
      → now + neg_part n ≤ pos_part n + skew
      → pos_part n ≤ now + skew + neg_part n
      → IsWithin skew now (int n)
  between :
      (floor : ℤ) (half : Bool)
      → now + neg_part floor ≤ pos_part floor + skew
      → pos_part floor < now + skew + neg_part floor
      → IsWithin skew now (fraction floor half)

is_stale-IsWithin :
    (skew : ℕ) (ts : Number) (now : ℕ) → is_stale skew ts now ≡ false → IsWithin skew now ts
unfolding is_stale
is_stale-IsWithin skew (int n) now e = whole n (ground arith) (ground arith)
is_stale-IsWithin skew (fraction n half) now e = between n half (ground arith) (ground arith)
is_stale-IsWithin skew (infinity negative) now e = absurd (ground arith)
is_stale-IsWithin skew nan now e = absurd (ground arith)

IsWithin-is_stale :
    (skew : ℕ) (ts : Number) (now : ℕ) → IsWithin skew now ts → is_stale skew ts now ≡ false
unfolding is_stale
IsWithin-is_stale skew _ now (whole n after before) = ground arith
IsWithin-is_stale skew _ now (between n half after before) = ground arith

signature_headers_iff :
    (r : Request) (h : SignatureHeaders)
    → (signature_headers r ≡ some h) ↔ (
        Carries r.nonce h.nonce × Carries r.timestamp h.timestamp × Carries r.signature h.signature)
unfolding signature_headers
signature_headers_iff r h = (
  λ e. (
    (given_iff r.nonce h.nonce).0 (ground arith),
    (given_iff r.timestamp h.timestamp).0 (ground arith),
    (given_iff r.signature h.signature).0 (ground arith),
  ),
  λ (n, t, s).
      let n' = (given_iff r.nonce h.nonce).1 n in
      let t' = (given_iff r.timestamp h.timestamp).1 t in
      let s' = (given_iff r.signature h.signature).1 s in ground (arith, n', t', s'),
)

module _ (sha256_hex : Bytes → Text) (to_number : Text → Number)
    (verify_ecdsa : (public_key message signature : Text) → Bool) where
  -- The three headers, a time within the skew, a signature of the request under the key of the
  -- install, and a nonce that is not alive.
  pub record IsAuthentic (config : BackendConfig) (st : State) (r : Request) (now : ℕ)
      (id nonce : Text) : Type 0 where
    pub timestamp : Text
    pub signature : Text
    pub public_key : Text
    pub named : Carries r.install_id id
    pub with_nonce : Carries r.nonce nonce
    pub with_time : Carries r.timestamp timestamp
    pub with_signature : Carries r.signature signature
    pub timely : IsWithin config.timestamp_skew_ms now (to_number timestamp)
    pub enrolled : Carries (device_public_key st id) public_key
    pub signed :
        verify_ecdsa public_key
          (request_signing_string (record {
            method = r.method;
            path = r.path;
            install_id = id;
            nonce = nonce;
            timestamp = timestamp;
            body_sha256 = sha256_hex r.raw_body;
          }))
          signature
        ≡ true
    pub unseen : IsUnseen st.cache.nonces nonce now

  IsAuthentic-authenticate :
      (config : BackendConfig) (st : State) (r : Request) (now : ℕ) (id nonce : Text)
      → config.require_request_signature ≡ true
      → IsAuthentic config st r now id nonce
      → authenticate sha256_hex to_number verify_ecdsa config st r now
        ≡ (record st { cache = recorded st.cache nonce config.nonce_ttl_ms now }, done id)
  unfolding authenticate check_install check_headers check_key admit is_signed store_nonce recorded
  IsAuthentic-authenticate config st r now id nonce required a =
      let headers : SignatureHeaders = record {
        nonce = nonce;
        timestamp = a.timestamp;
        signature = a.signature;
      } in
      let named = (given_iff r.install_id id).1 a.named in
      let sent =
        (signature_headers_iff r headers).1 (a.with_nonce, a.with_time, a.with_signature) in
      let fresh = IsWithin-is_stale config.timestamp_skew_ms (to_number a.timestamp) now a.timely in
      let enrolled = (given_iff (device_public_key st id) a.public_key).1 a.enrolled in
      let first = (register_nonce_iff st.cache nonce config.nonce_ttl_ms now).1 a.unseen in
      let stored = register_nonce-recorded st.cache nonce config.nonce_ttl_ms now first in
      rw (named, required, sent, fresh, enrolled, a.signed, stored) refl

  -- Where signatures are required, a request is authenticated as an install exactly when it names the
  -- install, carries nonce, timestamp and signature, all not empty, its timestamp is at most the skew
  -- away from the server's time, its signature verifies under the key that the install enrolled, and
  -- its nonce is not on record or is due; the step then records the nonce for its time to live, drops
  -- what is due from the cache, and changes nothing else.
  pub authenticate-IsAuthentic :
      (config : BackendConfig) (st st' : State) (r : Request) (now : ℕ) (id : Text)
      → config.require_request_signature ≡ true
      → (authenticate sha256_hex to_number verify_ecdsa config st r now ≡ (st', done id)) ↔ (
          (nonce : Text) × IsAuthentic config st r now id nonce
          × (st' ≡ record st { cache = recorded st.cache nonce config.nonce_ttl_ms now }))
  unfolding is_signed store_nonce
  authenticate-IsAuthentic config st st' r now id required = (
    λ e.
        let a =
          authenticate-IsAdmitted sha256_hex to_number verify_ecdsa config st r now id required
            (ap (λ x. x.1) e) in
        let (n, t, s) = (signature_headers_iff r a.headers).0 a.sent in
        (
          a.headers.nonce,
          record {
            timestamp = a.headers.timestamp;
            signature = a.headers.signature;
            public_key = a.public_key;
            named = (given_iff r.install_id id).0 a.named;
            with_nonce = n;
            with_time = t;
            with_signature = s;
            timely =
                is_stale-IsWithin config.timestamp_skew_ms (to_number a.headers.timestamp) now
                  a.fresh;
            enrolled = (given_iff (device_public_key st id) a.public_key).0 a.enrolled;
            signed = a.signed;
            unseen =
                (register_nonce_iff st.cache a.headers.nonce config.nonce_ttl_ms now).0 a.first;
          },
          sym (ap (λ x. x.0) e)
              ∙ a.registered
              ∙ ap (λ (x : Cache × Bool). record st { cache = x.0 })
                  (register_nonce-recorded st.cache a.headers.nonce config.nonce_ttl_ms now
                    a.first),
        ),
    λ (nonce, a, same).
        IsAuthentic-authenticate config st r now id nonce required a
        ∙ ap (λ s. (s, done id)) (sym same),
  )
