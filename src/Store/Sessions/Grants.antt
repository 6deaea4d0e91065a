-- ===== src/Store/Sessions/Grants.antt =====
-- Download tokens: what a token grants is what it was issued for, until it expires.
use dash_ota.Base.{
  ℕ, ◌+◌, ◌≤◌, ◌≡◌, ◌≢◌, refl, ap, ◌∙◌, Bool, true, false, Option, none, some, List, [], ◌∷◌, ◌++◌,
  Text, text, ◌===◌, eq_refl, any, ◌==◌, ltb, is_empty, arith, All, Bool-cases, inl, inr,
}
use mathlib.Core.List.{append_assoc, append-nil}
use dash_ota.Base.Dict.{get, get-set, get-delete}
use dash_ota.Base.Scan.{split, split_from}
use dash_ota.Config.{BackendConfig}
use dash_ota.Providers.Cache.{
  Cache, Call, Token, put_token, peek_token, sweep, step, run, get-sweep_map, peeks, registers,
  limits, puts, consumes, register_nonce, rate_limit, consume_token,
}
use dash_ota.Store.Sessions.{
  Grant, grant_value, issue_download_token, peek_download_token, read_grant, first_two,
}

-- The text holds no separator.
abbrev pub has_bar : Text → Bool
has_bar = any (λ c. c == b'|')

-- `split` stops the first piece at the first separator.
split_from-bar :
    (cur b rest : Text)
    → has_bar b ≡ false
    → split_from b'|' cur (b ++ (text "|" ++ rest)) ≡ (cur ++ b) ∷ split b'|' rest
split_from-bar cur [] rest h = rw append-nil
split_from-bar cur (c ∷ b) rest h =
    let plain : (c == b'|') ≡ false = ground arith in
    rw plain (
      split_from-bar (cur ++ c ∷ []) b rest (ground arith)
      ∙ ap (λ p. p ∷ split b'|' rest) (append_assoc cur (c ∷ []) b))

split_from-plain : (cur b : Text) → has_bar b ≡ false → split_from b'|' cur b ≡ (cur ++ b) ∷ []
split_from-plain cur [] h = rw append-nil
split_from-plain cur (c ∷ b) h =
    let plain : (c == b'|') ≡ false = ground arith in
    rw plain (
      split_from-plain (cur ++ c ∷ []) b (ground arith)
      ∙ ap (λ p. p ∷ []) (append_assoc cur (c ∷ []) b))

-- A grant's text reads back as the grant.
read_grant-grant_value :
    (b i : Text)
    → has_bar b ≡ false
    → has_bar i ≡ false
    → is_empty b ≡ false
    → is_empty i ≡ false
    → read_grant (some (grant_value b i)) ≡ some (record { bundle_id = b; install_id = i })
read_grant-grant_value (c ∷ b) (d ∷ i) hb hi nb ni = ap first_two (
    split_from-bar [] (c ∷ b) (d ∷ i) hb ∙ ap (λ ps. (c ∷ b) ∷ ps) (split_from-plain [] (d ∷ i) hi))
read_grant-grant_value [] i hb hi nb ni = cc
read_grant-grant_value (c ∷ b) [] hb hi nb ni = cc

-- The token is on record with this value until `until` at least.
abbrev pub Holds : Text → Text → ℕ → Cache → Type 0
Holds token value until c =
    (t : Token) × (get c.tokens token ≡ some t) × (t.value ≡ value) × (until ≤ t.expires_at)

-- A call at a time up to `until` that neither replaces nor consumes the token.
abbrev pub Spares : Text → ℕ → ℕ × Call → Type 0
Spares token until (now, puts t value ttl_ms) = (now ≤ until) × ((t === token) ≡ false)
Spares token until (now, consumes t) = (now ≤ until) × ((t === token) ≡ false)
Spares token until (now, _) = now ≤ until

module _ (token value : Text) (until : ℕ) where
  sweep-Holds :
      (c : Cache) (now : ℕ)
      → now ≤ until
      → Holds token value until c
      → Holds token value until (sweep c now)
  unfolding sweep
  sweep-Holds c now h (t, found, same, late) = (
    t,
    get-sweep_map (λ (t : Token). ltb t.expires_at now) c.tokens token found (ground arith),
    same,
    late,
  )

  step-Holds :
      (c : Cache) (call : ℕ × Call)
      → Spares token until call
      → Holds token value until c
      → Holds token value until (step c call)
  unfolding step peek_token register_nonce rate_limit put_token consume_token
  step-Holds c (now, peeks other) h held = sweep-Holds c now h held
  step-Holds c (now, registers nonce ttl_ms) h held =
      let (t, found, same, late) = sweep-Holds c now h held in
      (t, ground (arith, found), same, late)
  step-Holds c (now, limits key limit window_ms) h held = held
  step-Holds c (now, puts other v ttl_ms) (h, ne) (t, found, same, late) =
      (t, rw (get-set, ne) found, same, late)
  step-Holds c (now, consumes other) (h, ne) (t, found, same, late) =
      (t, ground (arith, found, get-delete c.tokens other token), same, late)

  run-Holds :
      (c : Cache) (calls : List (ℕ × Call))
      → All (Spares token until) calls
      → Holds token value until c
      → Holds token value until (run c calls)
  unfolding run
  run-Holds c [] h held = held
  run-Holds c (call ∷ calls) (h, hs) held =
      run-Holds (step c call) calls hs (step-Holds c call h held)

  peek_token-Holds :
      (c : Cache) (now : ℕ)
      → now ≤ until
      → Holds token value until c
      → (peek_token c token now).1 ≡ some value
  unfolding peek_token
  peek_token-Holds c now h held =
      let (t, found, same, late) = sweep-Holds c now h held in ground (arith, found, same)

-- A download token that was issued at `now` for a bundle and an install, neither of them empty or
-- with a "|" inside, grants exactly these two at any time up to `now` plus the token's time to live,
-- however often it was read before and whatever calls of the cache come in between, if none of them
-- stores or consumes a token of the same name.
pub issued_grant :
    (config : BackendConfig) (c : Cache) (token b i : Text) (now later : ℕ)
    (calls : List (ℕ × Call))
    → has_bar b ≡ false
    → has_bar i ≡ false
    → is_empty b ≡ false
    → is_empty i ≡ false
    → All (Spares token (now + config.download_token_ttl_ms)) calls
    → later ≤ now + config.download_token_ttl_ms
    → (peek_download_token (run (issue_download_token config c token b i now) calls) token later).1
      ≡ some (record { bundle_id = b; install_id = i })
unfolding issue_download_token peek_download_token put_token
issued_grant config c token b i now later calls hb hi nb ni spared h =
    ap read_grant (
      peek_token-Holds token (grant_value b i) (now + config.download_token_ttl_ms) _ later h (
        run-Holds token (grant_value b i) (now + config.download_token_ttl_ms) _ calls spared (
          record { value = grant_value b i; expires_at = now + config.download_token_ttl_ms },
          rw (get-set, eq_refl token),
          refl,
          omega arith,
        )))
    ∙ read_grant-grant_value b i hb hi nb ni

has_bar-concat :
    (s : Text) (c : ℕ) → has_bar s ≡ false → (c == b'|') ≡ false → has_bar (s ++ c ∷ []) ≡ false
has_bar-concat [] c h k = ground arith
has_bar-concat (d ∷ s) c h k = ground (arith, has_bar-concat s c)

first_two-head :
    (b : Text) (ps : List Text) (g : Grant) → first_two (b ∷ ps) ≡ some g → g.bundle_id ≡ b
first_two-head b [] g e = cc
first_two-head b (i ∷ ps) g e = ground arith

-- The first piece of a split text holds no separator.
first-split_from :
    (cur s : Text) (g : Grant)
    → has_bar cur ≡ false
    → first_two (split_from b'|' cur s) ≡ some g
    → has_bar g.bundle_id ≡ false
first-split_from cur [] g h e = cc
first-split_from cur (c ∷ s) g h e = elim (Bool-cases (c == b'|')) [
  | inl cut ↦ rw (first_two-head cur (split b'|' s) g (rw cut at e)) h
  | inr more ↦ first-split_from (cur ++ c ∷ []) s g (has_bar-concat cur c h more) (rw more at e)
]

read_grant-plain :
    (value : Option Text) (g : Grant) → read_grant value ≡ some g → has_bar g.bundle_id ≡ false
read_grant-plain none g e = cc
read_grant-plain (some []) g e = cc
read_grant-plain (some (c ∷ s)) g e = first-split_from [] (c ∷ s) g refl e

-- Whatever token is read, a bundle id that holds a "|" is never what it grants.
pub barred_bundle :
    (c : Cache) (token b : Text) (now : ℕ) (g : Grant)
    → has_bar b ≡ true
    → (peek_download_token c token now).1 ≡ some g
    → g.bundle_id ≢ b
unfolding peek_download_token
barred_bundle c token b now g bar e =
    λ same. cc (ap has_bar same, read_grant-plain (peek_token c token now).1 g e, bar)
