-- ===== src/Providers/Cache/Limits.antt =====
-- The fixed-window rate limit of the in-memory cache, over histories of calls.
use dash_ota.Base.{
  ℕ, ◌+◌, ◌≤◌, ◌<◌, ◌≡◌, Bool, true, false, some, List, [], ◌∷◌, Text, ◌===◌, eq_iff, eq_refl, min,
  ◌&&◌, All, arith, leb, if◌then◌else◌, Bool-cases, ◌∙◌, inl, inr,
}
use dash_ota.Base.Dict.{get, get-set}
use dash_ota.Providers.Cache.{
  Cache, Window, Call, peeks, registers, limits, puts, consumes, sweep, peek_token, register_nonce,
  rate_limit, put_token, consume_token, step, get-sweep_map, current_window,
}

-- Whether a call of the history is a request for `key` that is let through.
abbrev pub lets_through : Cache → Text → ℕ × Call → Bool
lets_through c key (now, limits k limit window_ms) =
    (k === key) && (rate_limit c k limit window_ms now).1.allowed
lets_through c key (now, _) = false

pub count_allowed : Cache → Text → List (ℕ × Call) → ℕ
count_allowed c key [] = 0
count_allowed c key (call ∷ calls) =
    let rest = count_allowed (step c call) key calls in
    if lets_through c key call then rest + 1 else rest

-- A call inside the window; a request for `key` carries at most the limit `limit`.
abbrev pub IsWithin : Text → ℕ → ℕ → ℕ × Call → Type 0
IsWithin key limit reset_at (now, limits k l window_ms) =
    (now < reset_at) × ((k === key) ≡ true → l ≤ limit)
IsWithin key limit reset_at (now, _) = now < reset_at

module _ (key : Text) where
  sweep-window :
      (c : Cache) (now : ℕ) {w : Window}
      → now < w.reset_at
      → get c.rate_windows key ≡ some w
      → get (sweep c now).rate_windows key ≡ some w
  unfolding sweep
  sweep-window c now {w} h e =
      get-sweep_map (λ w. leb w.reset_at now) c.rate_windows key e (ground arith)

  -- A request inside the window is counted in it, and let through while the count allows.
  rate_limit-current :
      (c : Cache) (limit window_ms now : ℕ) (w : Window)
      → now < w.reset_at
      → get c.rate_windows key ≡ some w
      → (get (rate_limit c key limit window_ms now).0.rate_windows key
          ≡ some (record w { count = w.count + 1 }))
        × ((rate_limit c key limit window_ms now).1.allowed ≡ leb (w.count + 1) limit)
  unfolding rate_limit
  rate_limit-current c limit window_ms now w h e = (
    rw (e, current_window)
        (ground (
          arith,
          eq_iff key key,
          get-set c.rate_windows key key (record w { count = w.count + 1 }),
        )),
    rw (e, current_window) (ground arith),
  )

  rate_limit-other :
      (c : Cache) (k : Text) (limit window_ms now : ℕ)
      → (k === key) ≡ false
      → get (rate_limit c k limit window_ms now).0.rate_windows key ≡ get c.rate_windows key
  unfolding rate_limit
  rate_limit-other c k limit window_ms now e = rw (get-set, e)

  -- What a call leaves of the window: the same one, with a count that a let-through request grows.
  abbrev Next : Cache → ℕ → ℕ × Call → Window → Type 0
  Next c limit call w =
      (n : ℕ) × (get (step c call).rate_windows key ≡ some (record w { count = n }))
      × (w.count ≤ n)
      × (lets_through c key call ≡ true → (w.count + 1 ≤ n) × (n ≤ limit))

  limits-Next :
      (c : Cache) (limit k_limit window_ms now : ℕ) (k : Text) (w : Window)
      → IsWithin key limit w.reset_at (now, limits k k_limit window_ms)
      → get c.rate_windows key ≡ some w
      → Next c limit (now, limits k k_limit window_ms) w
  unfolding step
  limits-Next c limit k_limit window_ms now k w (h, hl) e = elim (Bool-cases (k === key)) [
    | inl same ↦
        let at = (eq_iff k key).0 same in
        let (counted, allowed) = rate_limit-current c k_limit window_ms now w h e in
        (
          w.count + 1,
          rw at counted,
          omega arith,
          λ passed.
              let passed' : leb (w.count + 1) k_limit ≡ true = ground (arith, at, allowed) in
              (omega arith, ground (arith, hl same)),
        )
    | inr other ↦ (
      w.count,
      rate_limit-other c k k_limit window_ms now other ∙ e,
      omega arith,
      λ passed. ground arith,
    )
  ]

  step-Next :
      (c : Cache) (limit : ℕ) (call : ℕ × Call) (w : Window)
      → IsWithin key limit w.reset_at call
      → get c.rate_windows key ≡ some w
      → Next c limit call w
  unfolding step peek_token put_token consume_token register_nonce
  step-Next c limit (now, peeks token) w h e =
      (w.count, sweep-window c now h e, omega arith, λ e. cc)
  step-Next c limit (now, registers nonce ttl_ms) w h e =
      (w.count, ground (arith, sweep-window c now h e), omega arith, λ e. cc)
  step-Next c limit (now, limits k l window_ms) w h e = limits-Next c limit l window_ms now k w h e
  step-Next c limit (now, puts token value ttl_ms) w h e = (w.count, e, omega arith, λ e. cc)
  step-Next c limit (now, consumes token) w h e = (w.count, ground arith, omega arith, λ e. cc)

  -- Inside one window at most `limit` requests for the key are let through, those that the window
  -- has counted before included, whatever other calls of the cache come in between.
  count_allowed-le :
      (c : Cache) (limit : ℕ) (calls : List (ℕ × Call)) (w : Window)
      → All (IsWithin key limit w.reset_at) calls
      → get c.rate_windows key ≡ some w
      → count_allowed c key calls + min w.count limit ≤ limit
  unfolding count_allowed
  count_allowed-le c limit [] w hs e = omega arith
  count_allowed-le c limit (call ∷ calls) w (here, hs) e =
      let (n, e', grows, passes) = step-Next c limit call w here e in
      let rest = count_allowed-le (step c call) limit calls (record w { count = n }) hs e' in
      elim (Bool-cases (lets_through c key call)) [
        | inl passed ↦ rw passed (omega (arith, passes passed, rest))
        | inr refused ↦ rw refused (omega (arith, rest))
      ]

  rate_limit-new :
      (c : Cache) (limit window_ms now : ℕ)
      → current_window (get c.rate_windows key) window_ms now
        ≡ record { count = 0; reset_at = now + window_ms }
      → (get (rate_limit c key limit window_ms now).0.rate_windows key
          ≡ some (record { count = 1; reset_at = now + window_ms }))
        × ((rate_limit c key limit window_ms now).1.allowed ≡ leb 1 limit)
  unfolding rate_limit
  rate_limit-new c limit window_ms now e = (rw (e, get-set, eq_refl key), rw e)

  -- A request for `key` at `now` that opens a window, followed by calls in that window whose requests
  -- for `key` carry at most the same limit: at most `limit` of the requests for `key` are let through.
  pub count_allowed_bounded :
      (c : Cache) (limit window_ms now : ℕ) (calls : List (ℕ × Call))
      → current_window (get c.rate_windows key) window_ms now
        ≡ record { count = 0; reset_at = now + window_ms }
      → All (IsWithin key limit (now + window_ms)) calls
      → count_allowed c key ((now, limits key limit window_ms) ∷ calls) ≤ limit
  unfolding count_allowed step
  count_allowed_bounded c limit window_ms now calls e hs =
      let (opened, allowed) = rate_limit-new c limit window_ms now e in
      let rest =
        count_allowed-le (rate_limit c key limit window_ms now).0 limit calls
          (record { count = 1; reset_at = now + window_ms }) hs opened in
      rw (eq_refl key, allowed) (ground (arith, rest))
