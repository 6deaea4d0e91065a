-- ===== src/Providers/Cache/Unseen.antt =====
-- packages/backend/src/providers.ts, `registerNonce` of the cache: when a nonce is new, and what is kept.
use dash_ota.Base.{
  ℕ, ◌+◌, ◌<◌, ◌≡◌, ◌≢◌, ◌↔◌, ◌⊎◌, refl, ap, Bool, true, none, [], ◌∷◌, Text, ◌===◌, eq_iff, arith,
  inl, inr, Bool-cases, ltb, leb, is_some,
}
use dash_ota.Base.Dict.{Dict, get, set}
use dash_ota.Providers.Cache.{Token, Window, Cache, sweep, sweep_map, register_nonce, peek_token}

-- No entry of the nonce is alive.
abbrev pub IsUnseen : Dict ℕ → Text → ℕ → Type 0
IsUnseen [] nonce now = Unit
IsUnseen ((k, expires) ∷ m) nonce now = ((k ≢ nonce) ⊎ (expires < now)) × IsUnseen m nonce now

pub get-IsUnseen :
    (m : Dict ℕ) (nonce : Text) (now : ℕ)
    → get (sweep_map (λ expires. ltb expires now) m) nonce ≡ none
    → IsUnseen m nonce now
unfolding get
get-IsUnseen [] nonce now e = tt
get-IsUnseen ((k, expires) ∷ m) nonce now e = elim (Bool-cases (ltb expires now)) [
  | inl gone ↦ (inr (ground arith), get-IsUnseen m nonce now (rw gone at e))
  | inr alive ↦ elim (Bool-cases (k === nonce)) [
    | inl here ↦ absurd (ground (arith, alive))
    | inr other ↦ (
      inl (λ same. cc (other, (eq_iff k nonce).1 same)),
      get-IsUnseen m nonce now (ground (arith, alive)),
    )
  ]
]

pub IsUnseen-get :
    (m : Dict ℕ) (nonce : Text) (now : ℕ)
    → IsUnseen m nonce now
    → get (sweep_map (λ expires. ltb expires now) m) nonce ≡ none
unfolding get
IsUnseen-get [] nonce now u = refl
IsUnseen-get ((k, expires) ∷ m) nonce now (this, rest) =
    ground (arith, eq_iff k nonce, IsUnseen-get m nonce now rest, this)

pub register_nonce_iff :
    (c : Cache) (nonce : Text) (ttl_ms now : ℕ)
    → ((register_nonce c nonce ttl_ms now).1 ≡ true) ↔ IsUnseen c.nonces nonce now
unfolding register_nonce sweep
register_nonce_iff c nonce ttl_ms now = (
  λ e. get-IsUnseen c.nonces nonce now (ground (arith, e)),
  λ u. let free = IsUnseen-get c.nonces nonce now u in ground (arith, free),
)

-- The cache with the nonce on record, less what is due.
unfoldable pub recorded : Cache → Text → ℕ → ℕ → Cache
unfolding sweep
recorded c nonce ttl_ms now =
    let swept = sweep c now in record swept { nonces = set swept.nonces nonce (now + ttl_ms) }

pub register_nonce-recorded :
    (c : Cache) (nonce : Text) (ttl_ms now : ℕ)
    → (register_nonce c nonce ttl_ms now).1 ≡ true
    → register_nonce c nonce ttl_ms now ≡ (recorded c nonce ttl_ms now, true)
unfolding register_nonce recorded
register_nonce-recorded c nonce ttl_ms now e =
    elim (Bool-cases (is_some (get (sweep c now).nonces nonce))) [
      | inl seen ↦ cc (rw seen at e)
      | inr free ↦ rw free refl
    ]

sweep_map_twice {ℓ} :
    {V : Type ℓ} (gone : V → Bool) (m : Dict V)
    → sweep_map gone (sweep_map gone m) ≡ sweep_map gone m
sweep_map_twice gone [] = refl
sweep_map_twice gone ((k, v) ∷ m) = elim (Bool-cases (gone v)) [
  | inl due ↦ rw due (sweep_map_twice gone m)
  | inr kept ↦ rw (kept, kept) (ap (λ rest. (k, v) ∷ rest) (sweep_map_twice gone m))
]

-- A look at a token sweeps the cache, which changes nothing for what comes at the same time.
pub sweep-peek_token :
    (c : Cache) (token : Text) (now : ℕ) → sweep (peek_token c token now).0 now ≡ sweep c now
unfolding sweep peek_token
sweep-peek_token c token now =
    rw
      (
        sweep_map_twice (λ (expires : ℕ). ltb expires now) c.nonces,
        sweep_map_twice (λ (t : Token). ltb t.expires_at now) c.tokens,
        sweep_map_twice (λ (w : Window). leb w.reset_at now) c.rate_windows,
      )
      refl

pub register_nonce-peek_token :
    (c : Cache) (token nonce : Text) (ttl_ms now : ℕ)
    → register_nonce (peek_token c token now).0 nonce ttl_ms now ≡ register_nonce c nonce ttl_ms now
unfolding register_nonce
register_nonce-peek_token c token nonce ttl_ms now = rw (sweep-peek_token c token now) refl
