-- ===== src/Store/Publishing/Permanence.antt =====
-- packages/backend/src/store.ts: publication and withdrawal across histories of calls.
use dash_ota.Base.{
  ℕ, ◌≡◌, refl, ◌∙◌, true, Option, none, some, List, [], ◌∷◌, Text, arith, Option-cases, Bool-cases,
  inl, inr,
}
use dash_ota.Base.Dict.{get}
use dash_ota.Manifest.{BlobEntry, find_blob_entry}
use dash_ota.Providers.{ReleaseRecord, get_release, Bytes, stat, blob_key}
use dash_ota.Store.{State}
use dash_ota.Store.Releases.{
  stage_blob, stage_expected, store_spooled, set_rollout, set_paused, rollback, has_size,
  spool_to_temp,
}
use dash_ota.Store.Publishing.{IsKeyed}
use dash_ota.Store.Publishing.Keys.{
  AreKeyed, releases-record_retired_client, create_release-AreKeyed, update_release-AreKeyed,
  finalize_release-AreKeyed, record_confirm-AreKeyed,
}
use dash_ota.Store.Policies.{register_key, set_native_policy, enroll}
use dash_ota.Store.Publishing.Histories.{
  Call, creates, stages, finalizes, sets_rollout, sets_paused, rolls_back, confirms, discards,
  registers_key, sets_policy, enrolls, counts_retired, caches, step, run,
}
use dash_ota.Store.Publishing.Evolution.{
  Evolves-self, Later, create_release-Later, update_release-Later, finalize_release-Later,
  record_confirm-Later,
}

module _ (sha256_hex : Bytes → Text) where
  db-store_spooled :
      (st : State) (sha : Text) (e : BlobEntry) (spooled : Option Bytes)
      → (store_spooled sha256_hex st sha e spooled).0.db ≡ st.db
  unfolding store_spooled
  db-store_spooled st sha e none = refl
  db-store_spooled st sha e (some bytes) = ground arith

  db-stage_expected :
      (st : State) (sha : Text) (body : List Bytes) (max_bytes : ℕ) (e : Option BlobEntry)
      → (stage_expected sha256_hex st sha body max_bytes e).0.db ≡ st.db
  unfolding stage_expected
  db-stage_expected st sha body max_bytes none = refl
  db-stage_expected st sha body max_bytes (some e) =
      elim (Bool-cases (has_size (stat st.blobs (blob_key sha)) (some e))) [
        | inl already ↦ rw already
        | inr absent ↦ rw absent (db-store_spooled st sha e (spool_to_temp body max_bytes))
      ]

  -- An upload changes no record.
  db-stage_blob :
      (st : State) (id sha : Text) (body : List Bytes) (max_bytes : ℕ)
      → (stage_blob sha256_hex st id sha body max_bytes).0.db ≡ st.db
  unfolding stage_blob
  db-stage_blob st id sha body max_bytes = elim (Option-cases (get_release st.db id)) [
    | inl missing ↦ rw (missing, stage_blob)
    | inr (r, known) ↦
        rw (known, stage_blob)
          (db-stage_expected st sha body max_bytes (find_blob_entry r.signed_manifest.manifest sha))
  ]

  step-AreKeyed : (st : State) (call : Call) → AreKeyed st → AreKeyed (step sha256_hex st call)
  unfolding step set_rollout set_paused rollback register_key set_native_policy enroll
  step-AreKeyed st (creates sm rollout now_iso) keyed =
      create_release-AreKeyed st sm rollout now_iso keyed
  step-AreKeyed st (stages id sha body max_bytes) keyed =
      rw (db-stage_blob st id sha body max_bytes) keyed
  step-AreKeyed st (finalizes id) keyed = finalize_release-AreKeyed st id keyed
  step-AreKeyed st (sets_rollout id pct) keyed = update_release-AreKeyed st id _ keyed
  step-AreKeyed st (sets_paused id paused) keyed = update_release-AreKeyed st id _ keyed
  step-AreKeyed st (rolls_back id) keyed = update_release-AreKeyed st id _ keyed
  step-AreKeyed st (confirms config id status install_id now) keyed =
      record_confirm-AreKeyed config st id status install_id now keyed
  step-AreKeyed st (discards id keep_also) keyed = keyed
  step-AreKeyed st (registers_key id key) keyed = keyed
  step-AreKeyed st (sets_policy channel policy) keyed = keyed
  step-AreKeyed st (enrolls id platform channel key now_iso) keyed = keyed
  step-AreKeyed st (counts_retired channel platform) keyed =
      rw (releases-record_retired_client st channel platform) keyed
  step-AreKeyed st (caches now call) keyed = keyed

  step-Later :
      (st : State) (call : Call) (id : Text) (r : ReleaseRecord)
      → IsKeyed st.db.releases
      → get st.db.releases id ≡ some r
      → Later (step sha256_hex st call).db.releases id r
  unfolding step set_rollout set_paused rollback register_key set_native_policy enroll
  step-Later st (creates sm rollout now_iso) id r keyed known =
      create_release-Later st sm rollout now_iso id r known
  step-Later st (stages other sha body max_bytes) id r keyed known =
      rw (db-stage_blob st other sha body max_bytes) (r, known, Evolves-self r)
  step-Later st (finalizes other) id r keyed known =
      finalize_release-Later st other id r keyed known
  step-Later st (sets_rollout other pct) id r keyed known =
      update_release-Later st other _ id r
        (λ s. (refl, record { published = λ e. e; immutable = λ e. refl; withdrawn = λ e. e }))
        keyed known
  step-Later st (sets_paused other paused) id r keyed known =
      update_release-Later st other _ id r
        (λ s. (refl, record { published = λ e. e; immutable = λ e. refl; withdrawn = λ e. e }))
        keyed known
  step-Later st (rolls_back other) id r keyed known =
      update_release-Later st other _ id r
        (λ s. (refl, record { published = λ e. e; immutable = λ e. refl; withdrawn = λ e. refl }))
        keyed known
  step-Later st (confirms config other status install_id now) id r keyed known =
      record_confirm-Later config st other id r status install_id now keyed known
  step-Later st (discards other keep_also) id r keyed known = (r, known, Evolves-self r)
  step-Later st (registers_key other key) id r keyed known = (r, known, Evolves-self r)
  step-Later st (sets_policy channel policy) id r keyed known = (r, known, Evolves-self r)
  step-Later st (enrolls other platform channel key now_iso) id r keyed known =
      (r, known, Evolves-self r)
  step-Later st (counts_retired channel platform) id r keyed known =
      rw (releases-record_retired_client st channel platform) (r, known, Evolves-self r)
  step-Later st (caches now call) id r keyed known = (r, known, Evolves-self r)

  run-Later :
      (st : State) (calls : List Call) (id : Text) (r : ReleaseRecord)
      → AreKeyed st
      → get st.db.releases id ≡ some r
      → Later (run sha256_hex st calls).db.releases id r
  unfolding run
  run-Later st [] id r keyed known = (r, known, Evolves-self r)
  run-Later st (call ∷ calls) id r keyed known =
      let (s, found, now) = step-Later st call id r keyed known in
      let (t, found', after) =
        run-Later (step sha256_hex st call) calls id s (step-AreKeyed st call keyed) found in
      (
        t,
        found',
        record {
          published = λ e. after.published (now.published e);
          immutable = λ e. after.immutable (now.published e) ∙ now.immutable e;
          withdrawn = λ e. after.withdrawn (now.withdrawn e);
        },
      )

  -- Assume that every record stands under its own id. A published release stays known
  -- under its id through every history of calls of the store's public methods: it stays published, and its signed
  -- manifest never changes.
  pub published_is_immutable :
      (st : State) (calls : List Call) (id : Text) (r : ReleaseRecord)
      → AreKeyed st
      → get st.db.releases id ≡ some r
      → r.finalized ≡ true
      → (s : ReleaseRecord) × (get (run sha256_hex st calls).db.releases id ≡ some s)
        × (s.finalized ≡ true)
        × (s.signed_manifest ≡ r.signed_manifest)
  published_is_immutable st calls id r keyed known final =
      let (s, found, later) = run-Later st calls id r keyed known in
      (s, found, later.published final, later.immutable final)

  -- Assume that every record stands under its own id. A release that was withdrawn stays
  -- withdrawn through every history of calls of the store's public methods.
  pub rollback_is_permanent :
      (st : State) (calls : List Call) (id : Text) (r : ReleaseRecord)
      → AreKeyed st
      → get st.db.releases id ≡ some r
      → r.rolled_back ≡ true
      → (s : ReleaseRecord) × (get (run sha256_hex st calls).db.releases id ≡ some s)
        × (s.rolled_back ≡ true)
  rollback_is_permanent st calls id r keyed known gone =
      let (s, found, later) = run-Later st calls id r keyed known in
      (s, found, later.withdrawn gone)
