-- ===== src/Providers/Cache/Replay.antt =====
-- The replay guard of the in-memory cache, over histories of calls.
use dash_ota.Base.{
  ℕ, ◌+◌, ◌≤◌, ◌≡◌, true, false, some, List, [], ◌∷◌, Text, eq_iff, All, arith, ltb,
}
use dash_ota.Base.Dict.{get, get-set}
use dash_ota.Providers.Cache.{
  Cache, Call, peeks, registers, limits, puts, consumes, sweep, peek_token, register_nonce,
  rate_limit, put_token, consume_token, step, run, get-sweep_map,
}

-- The nonce is on record until `until` at least.
abbrev pub IsHeld : Text → ℕ → Cache → Type 0
IsHeld nonce until c = (expires : ℕ) × (get c.nonces nonce ≡ some expires) × (until ≤ expires)

module _ (nonce : Text) (until : ℕ) where
  sweep-IsHeld :
      (c : Cache) (now : ℕ) → now ≤ until → IsHeld nonce until c → IsHeld nonce until (sweep c now)
  unfolding sweep
  sweep-IsHeld c now h (expires, found, late) =
      (expires, get-sweep_map (λ e. ltb e now) c.nonces nonce found (ground arith), late)

  register_nonce-IsHeld :
      (c : Cache) (other : Text) (ttl_ms now : ℕ)
      → now ≤ until
      → IsHeld nonce until c
      → IsHeld nonce until (register_nonce c other ttl_ms now).0
  unfolding register_nonce
  register_nonce-IsHeld c other ttl_ms now h held =
      let (expires, found, late) = sweep-IsHeld c now h held in
      (
        expires,
        ground (
          arith,
          found,
          eq_iff other nonce,
          get-set (sweep c now).nonces other nonce (now + ttl_ms),
        ),
        late,
      )

  step-IsHeld :
      (c : Cache) (call : ℕ × Call)
      → call.0 ≤ until
      → IsHeld nonce until c
      → IsHeld nonce until (step c call)
  unfolding step peek_token rate_limit put_token consume_token
  step-IsHeld c (now, peeks token) h held = sweep-IsHeld c now h held
  step-IsHeld c (now, registers other ttl_ms) h held =
      register_nonce-IsHeld c other ttl_ms now h held
  step-IsHeld c (now, limits key limit window_ms) h held = held
  step-IsHeld c (now, puts token value ttl_ms) h held = held
  step-IsHeld c (now, consumes token) h (expires, found, late) =
      (expires, ground (arith, found), late)

  pub run-IsHeld :
      (c : Cache) (calls : List (ℕ × Call))
      → All (λ call. call.0 ≤ until) calls
      → IsHeld nonce until c
      → IsHeld nonce until (run c calls)
  unfolding run
  run-IsHeld c [] h held = held
  run-IsHeld c (call ∷ calls) (h, hs) held =
      run-IsHeld (step c call) calls hs (step-IsHeld c call h held)

  -- A nonce on record is refused.
  pub register_nonce-held :
      (c : Cache) (ttl_ms now : ℕ)
      → now ≤ until
      → IsHeld nonce until c
      → (register_nonce c nonce ttl_ms now).1 ≡ false
  unfolding register_nonce
  register_nonce-held c ttl_ms now h held =
      let (expires, found, late) = sweep-IsHeld c now h held in ground (arith, found)

-- Once registered, a nonce is on record until its time to live has passed.
pub register_nonce-fresh :
    (c : Cache) (nonce : Text) (ttl_ms now : ℕ)
    → (register_nonce c nonce ttl_ms now).1 ≡ true
    → IsHeld nonce (now + ttl_ms) (register_nonce c nonce ttl_ms now).0
unfolding register_nonce
register_nonce-fresh c nonce ttl_ms now e = (
  now + ttl_ms,
  ground (arith, eq_iff nonce nonce, get-set (sweep c now).nonces nonce nonce (now + ttl_ms)),
  omega arith,
)

-- A nonce that was accepted at `now` is accepted by no later call up to `now + ttl_ms`, whatever
-- calls of the cache come in between.
pub no_replay :
    (c : Cache) (nonce : Text) (ttl_ms now : ℕ) (calls : List (ℕ × Call)) (ttl_ms' later : ℕ)
    → (register_nonce c nonce ttl_ms now).1 ≡ true
    → All (λ call. call.0 ≤ now + ttl_ms) calls
    → later ≤ now + ttl_ms
    → (register_nonce (run (register_nonce c nonce ttl_ms now).0 calls) nonce ttl_ms' later).1
      ≡ false
no_replay c nonce ttl_ms now calls ttl_ms' later e hs h =
    register_nonce-held nonce (now + ttl_ms) _ ttl_ms' later h
      (run-IsHeld nonce (now + ttl_ms) _ calls hs (register_nonce-fresh c nonce ttl_ms now e))
