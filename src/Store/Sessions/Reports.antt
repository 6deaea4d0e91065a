-- ===== src/Store/Sessions/Reports.antt =====
-- Server nonces: a report is accepted once, and only in the scope of the check that issued the nonce.
use dash_ota.Base.{
  ℕ, ◌+◌, ◌≤◌, ◌≡◌, ◌⊎◌, contains, refl, sym, subst, Bool, ◌===◌, ltb, ap, ◌∙◌, true, false, Option,
  none, some, List, [], ◌∷◌, Text, eq_iff, is_empty, arith, All, Bool-cases, inl, inr, Option-cases,
}
use mathlib.Core.List.{Memᴰ}
use dash_ota.Base.Dict.{Dict, get}
use dash_ota.Base.Int.{◌<ℤ◌}
use dash_ota.Config.{BackendConfig}
use dash_ota.Providers.{ReleaseRecord, get_release}
use dash_ota.Providers.Cache.{
  Token, sweep, sweep_map, Cache, Call, peeks, step, run, register_nonce, peek_token,
}
use dash_ota.Providers.Cache.Replay.{run-IsHeld, register_nonce-held, register_nonce-fresh}
use dash_ota.Providers.Cache.Unseen.{
  IsUnseen, recorded, register_nonce_iff, register_nonce-recorded, register_nonce-peek_token,
}
use dash_ota.Store.{State}
use dash_ota.Store.Adoption.{ConfirmStatus, failed}
use dash_ota.Store.Sessions.{
  ConfirmScope, covers, is_reportable, confirm_key, read_scope, consume_server_nonce,
}

-- The scope that a check issued allows the report.
pub record IsInScope (st : State) (scope : ConfirmScope) (install_id bundle_id : Text)
    (status : ConfirmStatus) : Type 0 where
  pub release : ReleaseRecord
  pub known : get_release st.db bundle_id ≡ some release
  pub install : scope.install_id ≡ install_id
  pub platform : release.platform ≡ scope.platform
  pub channel : release.channel ≡ scope.channel
  pub covered :
      (contains scope.bundle_ids bundle_id ≡ true)
      ⊎ ((status ≡ failed)
          × (release.runtime_version ≡ scope.runtime_version)
          × (scope.current_bundle_version <ℤ release.bundle_version))

covers_iff :
    (scope : ConfirmScope) (r : ReleaseRecord) (bundle_id : Text) (status : ConfirmStatus)
    → covers scope r bundle_id status ≡ true
    → (contains scope.bundle_ids bundle_id ≡ true)
      ⊎ ((status ≡ failed)
          × (r.runtime_version ≡ scope.runtime_version)
          × (scope.current_bundle_version <ℤ r.bundle_version))
unfolding covers
covers_iff scope r bundle_id status e =
    ground (arith, eq_iff r.runtime_version scope.runtime_version)

is_reportable-IsInScope :
    (st : State) (scope : Option ConfirmScope) (install_id bundle_id : Text)
    (status : ConfirmStatus)
    → is_reportable st scope install_id bundle_id status ≡ true
    → (s : ConfirmScope) × (scope ≡ some s) × IsInScope st s install_id bundle_id status
unfolding is_reportable
is_reportable-IsInScope st none install_id bundle_id status e = cc
is_reportable-IsInScope st (some s) install_id bundle_id status e =
    elim (Option-cases (get_release st.db bundle_id)) [
      | inl unknown ↦ cc (rw (unknown, is_reportable) at e)
      | inr (r, known) ↦
          let h = rw (known, is_reportable) at e in
          (
            s,
            refl,
            record {
              release = r;
              known = known;
              install = (eq_iff s.install_id install_id).0 (ground (arith, h));
              platform = (eq_iff r.platform s.platform).0 (ground (arith, h));
              channel = (eq_iff r.channel s.channel).0 (ground (arith, h));
              covered = covers_iff s r bundle_id status (ground (arith, h));
            },
          )
    ]

-- What is found after a sweep was held before it, and was not due.
get-swept :
    {V : Type 0} (gone : V → Bool) (m : Dict V) (k : Text) (v : V)
    → get (sweep_map gone m) k ≡ some v
    → Memᴰ (k, v) m × (gone v ≡ false)
unfolding get
get-swept gone [] k v e = cc e
get-swept gone ((j, w) ∷ m) k v e = elim (Bool-cases (gone w)) [
  | inl due ↦ let (held, alive) = get-swept gone m k v (rw due at e) in (Memᴰ.tail held, alive)
  | inr kept ↦ elim (Bool-cases (j === k)) [
    | inl here ↦
        let same : w ≡ v = ground (arith, e, kept, here) in
        (
          Memᴰ.head (ap (λ n. (n, v)) (sym ((eq_iff j k).0 here)) ∙ ap (λ x. (j, x)) (sym same)),
          subst (λ x. gone x ≡ false) same kept,
        )
    | inr other ↦
        let (held, alive) = get-swept gone m k v (ground (arith, e, kept, other)) in
        (Memᴰ.tail held, alive)
  ]
]

module _ (parse_scope : Text → Option ConfirmScope) (config : BackendConfig) where
  -- The cache holds a token that is not due, whose value prints the scope.
  abbrev pub IsIssued : Cache → Text → ℕ → ConfirmScope → Type 0
  IsIssued c nonce now s =
      (t : Token) × Memᴰ (nonce, t) c.tokens × (now ≤ t.expires_at) × (parse_scope t.value ≡ some s)

  read_scope-IsIssued :
      (c : Cache) (nonce : Text) (now : ℕ) (s : ConfirmScope)
      → read_scope parse_scope (peek_token c nonce now).1 ≡ some s
      → IsIssued c nonce now s
  unfolding peek_token sweep
  read_scope-IsIssued c nonce now s e = elim (Option-cases (get (sweep c now).tokens nonce)) [
    | inl missing ↦ cc (rw missing at e)
    | inr (t, found) ↦
        let (held, alive) =
          get-swept (λ (u : Token). ltb u.expires_at now) c.tokens nonce t found in
        (t, held, ground arith, rw found at e)
  ]

  -- What the tests of the code answered for an accepted report.
  abbrev pub IsPassed : State → Text → Text → Text → ConfirmStatus → ℕ → Type 0
  IsPassed st nonce install_id bundle_id status now =
      ((s : ConfirmScope) × IsIssued st.cache nonce now s
        × IsInScope st s install_id bundle_id status)
      × ((register_nonce (peek_token st.cache nonce now).0 (confirm_key nonce status bundle_id)
            config.nonce_ttl_ms now).1
          ≡ true)
      × ((consume_server_nonce parse_scope config st (some nonce) install_id bundle_id status now).0
          ≡ record st {
            cache =
                (register_nonce (peek_token st.cache nonce now).0
                  (confirm_key nonce status bundle_id) config.nonce_ttl_ms now).0;
          })

  pub consume_server_nonce-IsPassed :
      (st : State) (nonce install_id bundle_id : Text) (status : ConfirmStatus) (now : ℕ)
      → (consume_server_nonce parse_scope config st (some nonce) install_id bundle_id status now).1
        ≡ true
      → IsPassed st nonce install_id bundle_id status now
  unfolding consume_server_nonce
  consume_server_nonce-IsPassed st nonce install_id bundle_id status now e =
      let reportable =
        is_reportable st (read_scope parse_scope (peek_token st.cache nonce now).1) install_id
          bundle_id status in
      elim (Bool-cases (is_empty nonce)) [
        | inl blank ↦ cc (rw blank at e)
        | inr given ↦ elim (Bool-cases reportable) [
          | inr foreign ↦ cc (rw (given, foreign) at e)
          | inl own ↦ (
            let (s, read, scoped) = is_reportable-IsInScope st _ install_id bundle_id status own in
                (s, read_scope-IsIssued st.cache nonce now s read, scoped),
            rw (given, own) at e,
            rw (given, own) refl,
          )
        ]
      ]

  -- An accepted report, and the state after it.
  pub record IsAccepted (st st' : State) (nonce install_id bundle_id : Text)
      (status : ConfirmStatus) (now : ℕ) : Type 0 where
    pub scope : ConfirmScope
    pub issued : IsIssued st.cache nonce now scope
    pub in_scope : IsInScope st scope install_id bundle_id status
    pub unmarked : IsUnseen st.cache.nonces (confirm_key nonce status bundle_id) now
    pub marked : st' ≡ record st {
      cache = recorded st.cache (confirm_key nonce status bundle_id) config.nonce_ttl_ms now;
    }

  -- A report is accepted only if its server nonce is a token in the cache that is not due and whose
  -- value parses as a scope; the bundle is a known release, the scope names the install and
  -- the platform and channel of the release, and lists the bundle, or the report is a failure of a
  -- release of the runtime of the scope that is newer than its current bundle; and no mark
  -- of the same report is alive. The step then keeps the mark for the nonce's time to live, drops what
  -- is due from the cache, and changes nothing else.
  pub consume_server_nonce-IsAccepted :
      (st st' : State) (nonce install_id bundle_id : Text) (status : ConfirmStatus) (now : ℕ)
      → consume_server_nonce parse_scope config st (some nonce) install_id bundle_id status now
        ≡ (st', true)
      → IsAccepted st st' nonce install_id bundle_id status now
  consume_server_nonce-IsAccepted st st' nonce install_id bundle_id status now e =
      let key = confirm_key nonce status bundle_id in
      let ((s, issued, scoped), first, stored) =
        consume_server_nonce-IsPassed st nonce install_id bundle_id status now (ap (λ x. x.1) e) in
      let same = register_nonce-peek_token st.cache nonce key config.nonce_ttl_ms now in
      let fresh : (register_nonce st.cache key config.nonce_ttl_ms now).1 ≡ true =
        sym (ap (λ x. x.1) same) ∙ first in
      record {
        scope = s;
        issued = issued;
        in_scope = scoped;
        unmarked = (register_nonce_iff st.cache key config.nonce_ttl_ms now).0 fresh;
        marked =
            sym (ap (λ x. x.0) e)
            ∙ stored
            ∙ ap (λ (x : Cache × Bool). record st { cache = x.0 })
                (same ∙ register_nonce-recorded st.cache key config.nonce_ttl_ms now fresh);
      }

  -- A mark that was set is not set again before its time, after a look at the nonce.
  marked_once :
      (c c' : Cache) (nonce key : Text) (now later : ℕ) (calls : List (ℕ × Call))
      → (register_nonce c key config.nonce_ttl_ms now).1 ≡ true
      → c' ≡ run (register_nonce c key config.nonce_ttl_ms now).0 calls
      → All (λ call. call.0 ≤ now + config.nonce_ttl_ms) calls
      → later ≤ now + config.nonce_ttl_ms
      → (register_nonce (peek_token c' nonce later).0 key config.nonce_ttl_ms later).1 ≡ false
  unfolding run step
  marked_once c c' nonce key now later calls first reached timely soon =
      let until = now + config.nonce_ttl_ms in
      let held =
        run-IsHeld key until (register_nonce c key config.nonce_ttl_ms now).0 calls timely
          (register_nonce-fresh c key config.nonce_ttl_ms now first) in
      rw reached (
        register_nonce-held key until _ config.nonce_ttl_ms later soon
          (run-IsHeld key until _ ((later, peeks nonce) ∷ []) (soon, tt) held))

  -- After a report with a server nonce was accepted at `now`, a report of the same status on the same
  -- bundle with this nonce is refused at any `later` time up to the nonce's time to live, in every
  -- state whose cache came from the first report by calls up to that time.
  pub reported_once :
      (st st' : State) (nonce install_id install_id' bundle_id : Text) (status : ConfirmStatus)
      (now later : ℕ) (calls : List (ℕ × Call))
      → (consume_server_nonce parse_scope config st (some nonce) install_id bundle_id status now).1
        ≡ true
      → st'.cache
        ≡ run
            (consume_server_nonce parse_scope config st
              (some nonce)
              install_id
              bundle_id
              status
              now).0.cache
            calls
      → All (λ call. call.0 ≤ now + config.nonce_ttl_ms) calls
      → later ≤ now + config.nonce_ttl_ms
      → (consume_server_nonce parse_scope config st'
          (some nonce)
          install_id'
          bundle_id
          status
          later).1
        ≡ false
  reported_once st st' nonce install_id install_id' bundle_id status now later calls e reached
        timely soon =
      let (scoped, first, stored) =
        consume_server_nonce-IsPassed st nonce install_id bundle_id status now e in
      elim (Bool-cases
        (consume_server_nonce parse_scope config st' (some nonce) install_id' bundle_id status
          later).1) [
            | inr refused ↦ refused
            | inl again ↦
                let (scoped', first', stored') =
                  consume_server_nonce-IsPassed st' nonce install_id' bundle_id status later
                    again in
                cc (
                  first',
                  marked_once (peek_token st.cache nonce now).0 st'.cache nonce
                      (confirm_key nonce status bundle_id) now later calls first
                      (reached ∙ ap (λ s. run s.cache calls) stored) timely soon,
                )
          ]
