-- ===== src/Store/Publishing/Histories.antt =====
-- packages/backend/src/store.ts: the calls of its public methods, and histories of them.
use dash_ota.Base.{
  ℕ, ◌≡◌, refl, subst, false, ◌&&◌, sym, ◌∙◌, Bool, Option, none, some, List, [], ◌∷◌, Text, ◌===◌,
  eq_iff, arith, length, Option-cases, Bool-cases, ◌==◌, inl, inr,
}
use dash_ota.Base.Dict.{HasDistinctKeys, get, get-set}
use dash_ota.Base.Number.{Number}
use dash_ota.Config.{BackendConfig}
use dash_ota.Manifest.{SignedManifest, BlobEntry, find_blob_entry}
use dash_ota.Providers.{
  Database, ReleaseRecord, NativeVersionPolicy, get_release, Bytes, BlobStore, blob_key, stat,
  put_blob,
}
use dash_ota.Providers.Cache.{Cache}
use dash_ota.Providers.Cache.{Call as CacheCall, step as step_cache}
use dash_ota.Store.{State, empty_state}
use dash_ota.Store.Releases.{
  has_size, create_release, store_spooled, stage_expected, stage_blob, finalize_release,
  set_rollout, set_paused, rollback, spool_to_temp, discard_release, is_finalized,
}
use dash_ota.Store.Policies.{
  register_key, set_native_policy, enroll, record_retired_client, is_valid_channel,
  is_valid_platform,
}
use dash_ota.Manifest.Blobs.{contains-collect_blob_shas}
use dash_ota.Store.Adoption.{ConfirmStatus, record_confirm}
use dash_ota.Store.Publishing.{
  IsComplete, IsKeyed, AreWhole, Inv, blob_key-eq, discard_release-sub, get-discard_release,
}
use dash_ota.Store.Publishing.Operations.{
  create_release-Inv, finalize_release-Inv, update_release-Inv, record_confirm-Inv,
}

-- The public methods of the store that change something; `caches` is the call that a method on
-- nonces, rate limits and tokens makes of the cache.
pub data Call : Type 0 where
  creates : SignedManifest → (rollout : Number) → (now_iso : Text) → Call
  stages : (bundle_id sha : Text) → (body : List Bytes) → (max_bytes : ℕ) → Call
  finalizes : (bundle_id : Text) → Call
  sets_rollout : (bundle_id : Text) → Number → Call
  sets_paused : (bundle_id : Text) → Bool → Call
  rolls_back : (bundle_id : Text) → Call
  confirms :
      BackendConfig
      → (bundle_id : Text) → ConfirmStatus
      → (install_id : Option Text) → (now : ℕ) → Call
  discards : (bundle_id : Text) → (keep_also : List Text) → Call
  registers_key : (key_id key : Text) → Call
  sets_policy : (channel : Text) → NativeVersionPolicy → Call
  enrolls : (install_id platform channel public_key now_iso : Text) → Call
  counts_retired : (channel platform : Text) → Call
  caches : (now : ℕ) → CacheCall → Call

stat-eq-some :
    (blobs : BlobStore) (k : Text) {n : ℕ}
    → stat blobs k ≡ some n
    → (bytes : Bytes) × (get blobs k ≡ some bytes) × (length bytes ≡ n)
stat-eq-some blobs k {n} e = elim (Option-cases (get blobs k)) [
  | inl missing ↦ ground (arith, missing)
  | inr (bytes, found) ↦ (bytes, found, ground (arith, found))
]

module _ (sha256_hex : Bytes → Text) where
  unfoldable pub step : State → Call → State
  step st (creates sm rollout now_iso) = (create_release st sm rollout now_iso).0
  step st (stages id sha body max_bytes) = (stage_blob sha256_hex st id sha body max_bytes).0
  step st (finalizes id) = (finalize_release st id).0
  step st (sets_rollout id pct) = (set_rollout st id pct).0
  step st (sets_paused id paused) = (set_paused st id paused).0
  step st (rolls_back id) = (rollback st id).0
  step st (confirms config id status install_id now) =
      (record_confirm config st id status install_id now).0
  step st (discards id keep_also) = record st { blobs = discard_release st id keep_also }
  step st (registers_key id key) = register_key st id key
  step st (sets_policy channel policy) = set_native_policy st channel policy
  step st (enrolls id platform channel key now_iso) = enroll st id platform channel key now_iso
  step st (counts_retired channel platform) = record_retired_client st channel platform
  step st (caches now call) = record st { cache = step_cache st.cache (now, call) }

  -- A discard is of a release that is unknown or not published.
  abbrev pub IsSparing : State → Call → Type 0
  IsSparing st (discards id keep_also) = is_finalized (get_release st.db id) ≡ false
  IsSparing st _ = Unit

  abbrev pub AreSparing : State → List Call → Type 0
  AreSparing st [] = Unit
  AreSparing st (call ∷ calls) = IsSparing st call × AreSparing (step st call) calls

  unfoldable pub run : State → List Call → State
  run st [] = st
  run st (call ∷ calls) = run (step st call) calls

  module _ (collision_free : (a b : Bytes) → sha256_hex a ≡ sha256_hex b → a ≡ b) where
    put_blob-IsComplete :
        (st : State) (sha : Text) (bytes : Bytes) (r : ReleaseRecord)
        → Inv sha256_hex st
        → sha256_hex bytes ≡ sha
        → IsComplete st.blobs r.signed_manifest.manifest
        → IsComplete (put_blob st.blobs (blob_key sha) bytes) r.signed_manifest.manifest
    put_blob-IsComplete st sha bytes r inv hashes complete h e found =
        let (old, stored, sized) = stat-eq-some st.blobs (blob_key h) (complete h e found) in
        let same_bytes = λ (at : sha ≡ h).
          collision_free old bytes (inv.hashed h old stored ∙ sym (hashes ∙ at)) in
        elim (Bool-cases (sha === h)) [
          | inl here ↦
              let at = (eq_iff sha h).0 here in
              ground (
                arith,
                sized,
                same_bytes at,
                get-set st.blobs (blob_key sha) (blob_key h) bytes,
                blob_key-eq sha h,
              )
          | inr there ↦ ground (
            arith,
            complete h e found,
            get-set st.blobs (blob_key sha) (blob_key h) bytes,
            blob_key-eq sha h,
          )
        ]

    store_spooled-Inv :
        (st : State) (sha : Text) (expected : BlobEntry) (spooled : Option Bytes)
        → Inv sha256_hex st
        → Inv sha256_hex (store_spooled sha256_hex st sha expected spooled).0
    unfolding store_spooled
    store_spooled-Inv st sha expected none inv = inv
    store_spooled-Inv st sha expected (some bytes) inv =
        elim (Bool-cases (sha256_hex bytes === sha)) [
          | inr other ↦ rw other inv
          | inl hashes ↦ elim (Bool-cases (length bytes == expected.size)) [
            | inr wrong ↦ rw (hashes, wrong) inv
            | inl sized ↦
                rw (hashes, sized)
                  (record {
                    distinct = inv.distinct;
                    keyed = inv.keyed;
                    hashed = λ h b e. ground (
                      arith,
                      get-set st.blobs (blob_key sha) (blob_key h) bytes,
                      blob_key-eq sha h,
                      eq_iff sha h,
                      eq_iff (sha256_hex bytes) sha,
                      inv.hashed h b,
                    );
                    whole = λ id r e final.
                        put_blob-IsComplete st sha bytes r inv ((eq_iff _ _).0 hashes)
                          (inv.whole id r e final);
                  })
          ]
        ]

    stage_blob-Inv :
        (st : State) (id sha : Text) (body : List Bytes) (max_bytes : ℕ)
        → Inv sha256_hex st
        → Inv sha256_hex (stage_blob sha256_hex st id sha body max_bytes).0
    unfolding stage_blob
    stage_blob-Inv st id sha body max_bytes inv = elim (Option-cases (get_release st.db id)) [
      | inl missing ↦ rw (missing, stage_blob) inv
      | inr (r, known) ↦
          rw (known, stage_blob)
            (stage_expected-Inv (find_blob_entry r.signed_manifest.manifest sha))
    ]
      where
        stage_expected-Inv :
            (e : Option BlobEntry)
            → Inv sha256_hex (stage_expected sha256_hex st sha body max_bytes e).0
        stage_expected-Inv none = inv
        stage_expected-Inv (some e) =
            elim (Bool-cases (has_size (stat st.blobs (blob_key sha)) (some e))) [
              | inl already ↦ rw already inv
              | inr absent ↦
                  rw absent (store_spooled-Inv st sha e (spool_to_temp body max_bytes) inv)
            ]

    -- An unpublished release may lose its blobs; the published ones keep theirs.
    discard_release-Inv :
        (st : State) (id : Text) (keep_also : List Text)
        → is_finalized (get_release st.db id) ≡ false
        → Inv sha256_hex st
        → Inv sha256_hex (record st { blobs = discard_release st id keep_also })
    discard_release-Inv st id keep_also pending inv = record {
      distinct = inv.distinct;
      keyed = inv.keyed;
      hashed = λ h bytes e. inv.hashed h bytes (discard_release-sub st id keep_also _ e);
      whole = λ other r e final h b found. elim (Bool-cases (other === id)) [
        | inl same ↦
            let at : get_release st.db id ≡ some r =
              subst (λ k. get_release st.db k ≡ some r) ((eq_iff other id).0 same) e in
            absurd (ground (arith, at, pending, final))
        | inr apart ↦ ground (
          arith,
          get-discard_release st id other h keep_also r inv.keyed e apart,
          contains-collect_blob_shas r.signed_manifest.manifest h,
          inv.whole other r e final h b found,
        )
      ];
    }

    -- The tables beside the releases and the cache do not matter.
    same_releases-Inv :
        (st : State) (db : Database) (cache : Cache)
        → st.db.releases ≡ db.releases
        → Inv sha256_hex st
        → Inv sha256_hex (record st { db = db; cache = cache })
    same_releases-Inv st db cache same inv = record {
      distinct = subst HasDistinctKeys same inv.distinct;
      keyed = subst IsKeyed same inv.keyed;
      hashed = inv.hashed;
      whole = subst (λ releases. AreWhole releases st.blobs) same inv.whole;
    }

    pub step-Inv :
        (st : State) (call : Call)
        → IsSparing st call
        → Inv sha256_hex st
        → Inv sha256_hex (step st call)
    unfolding step set_rollout set_paused rollback register_key set_native_policy enroll
        record_retired_client
    step-Inv st (creates sm rollout now_iso) sparing inv =
        create_release-Inv sha256_hex st sm rollout now_iso inv
    step-Inv st (stages id sha body max_bytes) sparing inv =
        stage_blob-Inv st id sha body max_bytes inv
    step-Inv st (finalizes id) sparing inv = finalize_release-Inv sha256_hex st id inv
    step-Inv st (sets_rollout id pct) sparing inv =
        update_release-Inv sha256_hex st id _ (λ r. (refl, refl)) inv
    step-Inv st (sets_paused id paused) sparing inv =
        update_release-Inv sha256_hex st id _ (λ r. (refl, refl)) inv
    step-Inv st (rolls_back id) sparing inv =
        update_release-Inv sha256_hex st id _ (λ r. (refl, refl)) inv
    step-Inv st (confirms config id status install_id now) sparing inv =
        record_confirm-Inv sha256_hex config st id status install_id now inv
    step-Inv st (discards id keep_also) sparing inv =
        discard_release-Inv st id keep_also sparing inv
    step-Inv st (registers_key id key) sparing inv = same_releases-Inv st _ st.cache refl inv
    step-Inv st (sets_policy channel policy) sparing inv = same_releases-Inv st _ st.cache refl inv
    step-Inv st (enrolls id platform channel key now_iso) sparing inv =
        same_releases-Inv st _ st.cache refl inv
    step-Inv st (counts_retired channel platform) sparing inv =
        elim (Bool-cases (is_valid_channel channel && is_valid_platform platform)) [
          | inl valid ↦ rw valid (same_releases-Inv st _ st.cache refl inv)
          | inr other ↦ rw other inv
        ]
    step-Inv st (caches now call) sparing inv = same_releases-Inv st st.db _ refl inv

    -- Assume that the hash has no collisions, and that `discardRelease` is called on no release that is
    -- published at the time. Then every history of calls of the store's public methods keeps the
    -- invariant: each record stands under its own id, each stored blob has the hash that names it,
    -- and every blob of every published release is stored at the size that its manifest signs.
    pub run-Inv :
        (st : State) (calls : List Call)
        → AreSparing st calls
        → Inv sha256_hex st
        → Inv sha256_hex (run st calls)
    unfolding run
    run-Inv st [] sparing inv = inv
    run-Inv st (call ∷ calls) (this, rest) inv =
        run-Inv (step st call) calls rest (step-Inv st call this inv)

  pub empty_state-Inv : Inv sha256_hex empty_state
  unfolding get
  empty_state-Inv = record {
    distinct = tt;
    keyed = λ id r e. cc;
    hashed = λ h b e. cc;
    whole = λ id r e final h b found. cc;
  }
