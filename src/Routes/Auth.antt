-- ===== src/Routes/Auth.antt =====
-- packages/backend/src/routes.ts, `authenticate`. The hash of a body, `Number` of a text and the
-- ECDSA check of a signature are parameters; `Date.now()` is the argument `now`.
pub mod Replays
pub mod Accepted
use dash_ota.Base.{
  ℕ, ◌+◌, ◌-◌, Bool, true, false, not, ◌||◌, Option, none, some, Text, ltb, if◌then◌else◌,
}
use dash_ota.Base.Int.{ℤ, pos, negsuc}
use dash_ota.Base.Number.{Number, is_finite, int_lt, lt_int}
use dash_ota.Codes.{unauthenticated, stale_timestamp, not_enrolled, bad_signature, replay}
use dash_ota.Config.{BackendConfig}
use dash_ota.Providers.{Bytes}
use dash_ota.Signing.{SignedRequestParts, request_signing_string}
use dash_ota.Store.{State, Outcome, done, fail}
use dash_ota.Store.Policies.{device_public_key}
use dash_ota.Store.Sessions.{store_nonce}
use dash_ota.Routes.{Request, given}

-- `a - b` of two times.
abbrev pub minus : ℕ → ℕ → ℤ
minus a b = if ltb a b then negsuc (b - a - 1) else pos (a - b)

-- `!Number.isFinite(ts) || Math.abs(Date.now() - ts) > config.timestampSkewMs`
unfoldable pub is_stale : ℕ → Number → ℕ → Bool
is_stale skew ts now =
    not (is_finite ts) || lt_int ts (minus now skew) || int_lt (pos (now + skew)) ts

pub record SignatureHeaders : Type 0 where
  pub nonce : Text
  pub timestamp : Text
  pub signature : Text

-- The three headers of a signed request, if none is missing or empty.
unfoldable pub signature_headers : Request → Option SignatureHeaders
signature_headers r = elim (given r.nonce) [
  | none ↦ none
  | some nonce ↦ elim (given r.timestamp) [
    | none ↦ none
    | some timestamp ↦ elim (given r.signature) [
      | none ↦ none
      | some signature ↦
          some (record { nonce = nonce; timestamp = timestamp; signature = signature })
    ]
  ]
]

-- The nonce is registered last, for a request whose signature is right.
unfoldable pub admit : BackendConfig → State → Text → Text → ℕ → State × Outcome Text
admit config st install_id nonce now =
    let (cache, first) = store_nonce config st.cache nonce now in
    (record st { cache = cache }, if first then done install_id else fail 401 replay)

module _ (sha256_hex : Bytes → Text) (to_number : Text → Number)
    (verify_ecdsa : (public_key message signature : Text) → Bool) where
  -- `verifyRequestEcdsa` of packages/shared/src/crypto.ts, on the parts of the request.
  unfoldable pub is_signed : Request → Text → SignatureHeaders → Text → Bool
  is_signed r install_id h public_key =
      verify_ecdsa public_key
        (request_signing_string (record {
          method = r.method;
          path = r.path;
          install_id = install_id;
          nonce = h.nonce;
          timestamp = h.timestamp;
          body_sha256 = sha256_hex r.raw_body;
        }))
        h.signature

  unfoldable pub check_key :
      BackendConfig
      → State
      → Request
      → Text
      → SignatureHeaders
      → Option Text
      → ℕ
      → State × Outcome Text
  unfolding is_signed admit
  check_key config st r install_id h none now = (st, fail 401 not_enrolled)
  check_key config st r install_id h (some public_key) now =
      if is_signed r install_id h public_key
      then admit config st install_id h.nonce now
      else (st, fail 401 bad_signature)

  unfoldable pub check_headers :
      BackendConfig → State → Request → Text → Option SignatureHeaders → ℕ → State × Outcome Text
  unfolding check_key is_stale
  check_headers config st r install_id none now = (st, fail 401 unauthenticated)
  check_headers config st r install_id (some h) now =
      if is_stale config.timestamp_skew_ms (to_number h.timestamp) now
      then (st, fail 401 stale_timestamp)
      else check_key config st r install_id h (given (device_public_key st install_id)) now

  unfoldable pub check_install :
      BackendConfig → State → Request → Option Text → ℕ → State × Outcome Text
  unfolding check_headers signature_headers
  check_install config st r none now = (st, fail 401 unauthenticated)
  check_install config st r (some install_id) now =
      if config.require_request_signature
      then check_headers config st r install_id (signature_headers r) now
      else (st, done install_id)

  unfoldable pub authenticate : BackendConfig → State → Request → ℕ → State × Outcome Text
  unfolding check_install
  authenticate config st r now = check_install config st r (given r.install_id) now
