-- ===== src/Providers/Cache.antt =====
-- packages/backend/src/providers.ts, `MemoryCacheProvider`. `Date.now()` is the argument `now`.
pub mod Replay
pub mod Unseen
pub mod Limits
use dash_ota.Base.{
  ◌≡◌, arith, ℕ, ◌+◌, ◌-◌, Bool, true, false, Option, none, some, List, [], ◌∷◌, Text, ltb, leb,
  is_some, if◌then◌else◌,
}
use dash_ota.Base.Dict.{Dict, get, set, delete}

pub record Token : Type 0 where
  pub value : Text
  pub expires_at : ℕ

pub record Window : Type 0 where
  pub count : ℕ
  pub reset_at : ℕ

pub record Cache : Type 0 where
  pub nonces : Dict ℕ
  pub tokens : Dict Token
  pub rate_windows : Dict Window

pub record RateLimitResult : Type 0 where
  pub allowed : Bool
  pub remaining : ℕ
  pub reset_ms : ℕ

abbrev pub empty_cache : Cache
empty_cache = record { nonces = []; tokens = []; rate_windows = [] }

-- The loops of `sweep`, one for each map: an entry goes when `gone` holds of it.
abbrev pub sweep_map {ℓ} : {V : Type ℓ} → (V → Bool) → Dict V → Dict V
sweep_map gone [] = []
sweep_map gone ((k, v) ∷ m) = let rest = sweep_map gone m in if gone v then rest else (k, v) ∷ rest

unfoldable pub sweep : Cache → ℕ → Cache
sweep c now = record {
  nonces = sweep_map (λ expires. ltb expires now) c.nonces;
  tokens = sweep_map (λ t. ltb t.expires_at now) c.tokens;
  rate_windows = sweep_map (λ w. leb w.reset_at now) c.rate_windows;
}

abbrev token_value : Option Token → Option Text
token_value none = none
token_value (some t) = some t.value

unfoldable pub peek_token : Cache → Text → ℕ → Cache × Option Text
peek_token c token now = let c' = sweep c now in (c', token_value (get c'.tokens token))

unfoldable pub register_nonce : Cache → Text → ℕ → ℕ → Cache × Bool
register_nonce c nonce ttl_ms now =
    let c' = sweep c now in
    if is_some (get c'.nonces nonce)
    then (c', false)
    else (record c' { nonces = set c'.nonces nonce (now + ttl_ms) }, true)

-- The window that a request falls into: the current one, or a new one.
abbrev pub current_window : Option Window → ℕ → ℕ → Window
current_window none window_ms now = record { count = 0; reset_at = now + window_ms }
current_window (some w) window_ms now =
    if leb w.reset_at now then record { count = 0; reset_at = now + window_ms } else w

unfoldable pub rate_limit : Cache → Text → ℕ → ℕ → ℕ → Cache × RateLimitResult
rate_limit c key limit window_ms now =
    let w = current_window (get c.rate_windows key) window_ms now in
    let counted : Window = record w { count = w.count + 1 } in
    (
      record c { rate_windows = set c.rate_windows key counted },
      record {
        allowed = leb counted.count limit;
        remaining = limit - counted.count;
        reset_ms = counted.reset_at - now;
      },
    )

unfoldable pub put_token : Cache → Text → Text → ℕ → ℕ → Cache
put_token c token value ttl_ms now = record c {
  tokens = set c.tokens token (record { value = value; expires_at = now + ttl_ms });
}

abbrev spent_value : Token → ℕ → Option Text
spent_value t now = if ltb t.expires_at now then none else some t.value

unfoldable pub consume_token : Cache → Text → ℕ → Cache × Option Text
consume_token c token now = elim (get c.tokens token) [
  | none ↦ (c, none)
  | some t ↦ (record c { tokens = delete c.tokens token }, spent_value t now)
]

-- One call of a cache method, and the cache after a history of calls, each with its time.
pub data Call : Type 0 where
  peeks : (token : Text) → Call
  registers : (nonce : Text) (ttl_ms : ℕ) → Call
  limits : (key : Text) (limit window_ms : ℕ) → Call
  puts : (token value : Text) (ttl_ms : ℕ) → Call
  consumes : (token : Text) → Call

unfoldable pub step : Cache → ℕ × Call → Cache
step c (now, peeks token) = (peek_token c token now).0
step c (now, registers nonce ttl_ms) = (register_nonce c nonce ttl_ms now).0
step c (now, limits key limit window_ms) = (rate_limit c key limit window_ms now).0
step c (now, puts token value ttl_ms) = put_token c token value ttl_ms now
step c (now, consumes token) = (consume_token c token now).0

unfoldable pub run : Cache → List (ℕ × Call) → Cache
run c [] = c
run c (call ∷ calls) = run (step c call) calls

-- Sweeping keeps an entry that is not due.
pub get-sweep_map {ℓ} :
    {V : Type ℓ} (gone : V → Bool) (m : Dict V) (k : Text) {v : V}
    → get m k ≡ some v
    → gone v ≡ false
    → get (sweep_map gone m) k ≡ some v
unfolding get
get-sweep_map gone [] k e h = cc
get-sweep_map gone ((j, w) ∷ m) k {v} e h = ground (arith, get-sweep_map gone m k {v = v})
