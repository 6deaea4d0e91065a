-- ===== src/Store/Publishing/Operations.antt =====
-- packages/backend/src/store.ts: the operations on releases and the invariant of the store.
use dash_ota.Base.{
  ℕ, ◌≡◌, Bool, true, false, Option, none, some, Text, ◌===◌, eq_iff, subst, arith, Option-cases,
  Bool-cases, inl, inr, is_empty,
}
use dash_ota.Base.Dict.{Dict, get, set, get-set, set-HasDistinctKeys}
use dash_ota.Base.Number.{Number}
use dash_ota.Config.{BackendConfig}
use dash_ota.Manifest.{Manifest, SignedManifest, collect_blob_shas}
use dash_ota.Manifest.Blobs.{contains-collect_blob_shas}
use dash_ota.Providers.{ReleaseRecord, get_release, put_release, Bytes, BlobStore}
use dash_ota.Providers.Cache.{Cache}
use dash_ota.Store.{State}
use dash_ota.Store.Releases.{
  missing_blobs, is_finalized, replaced_blobs, new_record, create_release, finalize_found,
  finalize_release, update_release,
}
use dash_ota.Store.Adoption.{
  ConfirmStatus, record_confirm, confirm_found, confirm_first, counted, is_deduped,
}
use dash_ota.Store.Publishing.{
  IsComplete, IsKeyed, AreWhole, Inv, missing_blobs-IsComplete, get-discard_release,
  discard_release-sub,
}

-- Storing a record that is not final under its own id, with blobs that keep what the other final
-- releases reference.
pub IsKeyed-set :
    (releases : Dict ReleaseRecord) (r : ReleaseRecord)
    → IsKeyed releases
    → IsKeyed (set releases r.bundle_id r)
IsKeyed-set releases r keyed id s e =
    ground (arith, get-set releases r.bundle_id id r, keyed id s, eq_iff r.bundle_id id)

-- As `AreWhole`, for every id but one.
abbrev AreWholeBut : Text → Dict ReleaseRecord → BlobStore → Type 0
AreWholeBut except releases blobs =
    (id : Text) (r : ReleaseRecord)
    → get releases id ≡ some r
    → (except === id) ≡ false
    → r.finalized ≡ true
    → IsComplete blobs r.signed_manifest.manifest

AreWhole-set :
    (releases : Dict ReleaseRecord) (blobs : BlobStore) (r : ReleaseRecord)
    → AreWholeBut r.bundle_id releases blobs
    → (r.finalized ≡ true → IsComplete blobs r.signed_manifest.manifest)
    → AreWhole (set releases r.bundle_id r) blobs
AreWhole-set releases blobs r whole complete id s e final = elim (Bool-cases (r.bundle_id === id)) [
  | inl here ↦
      let at : r ≡ s = ground (arith, get-set releases r.bundle_id id r) in
      subst
        (λ (q : ReleaseRecord). q.finalized ≡ true → IsComplete blobs q.signed_manifest.manifest) at
        complete final
  | inr there ↦ whole id s (ground (arith, get-set releases r.bundle_id id r)) there final
]

module _ (sha256_hex : Bytes → Text) where
  -- A stored record may be replaced by one that is complete if it is final.
  put_release-Inv :
      (st : State) (cache : Cache) (r : ReleaseRecord)
      → Inv sha256_hex st
      → (r.finalized ≡ true → IsComplete st.blobs r.signed_manifest.manifest)
      → Inv sha256_hex (record st { db = put_release st.db r; cache = cache })
  put_release-Inv st cache r inv complete = record {
    distinct = set-HasDistinctKeys st.db.releases r.bundle_id r inv.distinct;
    keyed = IsKeyed-set st.db.releases r inv.keyed;
    hashed = inv.hashed;
    whole = AreWhole-set st.db.releases st.blobs r (λ id s e there. inv.whole id s e) complete;
  }

  replaced_blobs-whole :
      (st : State) (m : Manifest)
      → Inv sha256_hex st
      → AreWholeBut m.bundle_id st.db.releases (replaced_blobs st m (get_release st.db m.bundle_id))
  replaced_blobs-whole st m inv id r e there final h b found =
      elim (Option-cases (get_release st.db m.bundle_id)) [
        | inl missing ↦ rw missing (inv.whole id r e final h b found)
        | inr (s, known) ↦ rw known (
            ground (
              arith,
              get-discard_release st m.bundle_id id h (collect_blob_shas m) r inv.keyed e,
              eq_iff m.bundle_id id,
              eq_iff id m.bundle_id,
              contains-collect_blob_shas r.signed_manifest.manifest h,
              inv.whole id r e final h b found,
            ))
      ]

  replaced_blobs-sub :
      (st : State) (m : Manifest) (o : Option ReleaseRecord) (k : Text) {bytes : Bytes}
      → get (replaced_blobs st m o) k ≡ some bytes
      → get st.blobs k ≡ some bytes
  replaced_blobs-sub st m none k e = e
  replaced_blobs-sub st m (some r) k e =
      discard_release-sub st m.bundle_id (collect_blob_shas m) k e

  pub create_release-Inv :
      (st : State) (sm : SignedManifest) (rollout : Number) (now_iso : Text)
      → Inv sha256_hex st
      → Inv sha256_hex (create_release st sm rollout now_iso).0
  unfolding create_release
  create_release-Inv st sm rollout now_iso inv =
      elim (Bool-cases (is_finalized (get_release st.db sm.manifest.bundle_id))) [
        | inl final ↦ rw final inv
        | inr pending ↦ rw pending (record {
          distinct = set-HasDistinctKeys st.db.releases sm.manifest.bundle_id _ inv.distinct;
          keyed =
              IsKeyed-set st.db.releases
                (new_record sm rollout now_iso (get_release st.db sm.manifest.bundle_id)) inv.keyed;
          hashed = λ h bytes e.
              inv.hashed h bytes
                (replaced_blobs-sub st sm.manifest (get_release st.db sm.manifest.bundle_id) _ e);
          whole =
              AreWhole-set st.db.releases _
                (new_record sm rollout now_iso (get_release st.db sm.manifest.bundle_id))
                (replaced_blobs-whole st sm.manifest inv) (λ e. cc);
        })
      ]

  finalize_found-Inv :
      (st : State) (r : ReleaseRecord) → Inv sha256_hex st → Inv sha256_hex (finalize_found st r).0
  unfolding finalize_found
  finalize_found-Inv st r inv = elim (Bool-cases r.finalized) [
    | inl already ↦ rw already inv
    | inr pending ↦
        elim (Bool-cases (is_empty (missing_blobs st.blobs r.signed_manifest.manifest))) [
          | inl whole ↦
              rw (pending, whole)
                (put_release-Inv st st.cache (record r { finalized = true }) inv
                  (λ _. missing_blobs-IsComplete st.blobs _ (ground arith)))
          | inr missing ↦ rw (pending, missing) inv
        ]
  ]

  pub finalize_release-Inv :
      (st : State) (id : Text) → Inv sha256_hex st → Inv sha256_hex (finalize_release st id).0
  unfolding finalize_release
  finalize_release-Inv st id inv = elim (Option-cases (get_release st.db id)) [
    | inl missing ↦ rw (missing, finalize_release) inv
    | inr (r, known) ↦ rw (known, finalize_release) (finalize_found-Inv st r inv)
  ]

  -- A change that touches neither the manifest nor the publication of a record.
  pub update_release-Inv :
      (st : State) (id : Text) (change : ReleaseRecord → ReleaseRecord)
      → ((r : ReleaseRecord)
          → ((change r).finalized ≡ r.finalized) × ((change r).signed_manifest ≡ r.signed_manifest))
      → Inv sha256_hex st
      → Inv sha256_hex (update_release st id change).0
  update_release-Inv st id change same inv = elim (Option-cases (get_release st.db id)) [
    | inl missing ↦ rw (missing, update_release) inv
    | inr (r, known) ↦
        rw (known, update_release)
          (put_release-Inv st st.cache (change r) inv
            (rw ((same r).0, (same r).1) (inv.whole id r known)))
  ]

  confirm_first-Inv :
      (config : BackendConfig) (st : State) (id : Text) (r : ReleaseRecord) (status : ConfirmStatus)
      (first : Bool)
      → get st.db.releases id ≡ some r
      → Inv sha256_hex st
      → Inv sha256_hex (confirm_first config st r status first).0
  unfolding confirm_first
  confirm_first-Inv config st id r status true known inv =
      put_release-Inv st st.cache (counted config r status).0 inv (inv.whole id r known)
  confirm_first-Inv config st id r status false known inv = inv

  change_cache-Inv :
      (st : State) (cache : Cache)
      → Inv sha256_hex st
      → Inv sha256_hex (record st { cache = cache })
  change_cache-Inv st cache inv = record {
    distinct = inv.distinct;
    keyed = inv.keyed;
    hashed = inv.hashed;
    whole = inv.whole;
  }

  confirm_found-Inv :
      (config : BackendConfig) (st : State) (id : Text) (r : ReleaseRecord) (status : ConfirmStatus)
      (install_id : Option Text) (now : ℕ)
      → get st.db.releases id ≡ some r
      → Inv sha256_hex st
      → Inv sha256_hex (confirm_found config st r id status install_id now).0
  unfolding confirm_found
  confirm_found-Inv config st id r status none now known inv =
      confirm_first-Inv config st id r status true known inv
  confirm_found-Inv config st id r status (some install_id) now known inv =
      elim (Bool-cases (is_deduped (some install_id) status)) [
        | inl deduped ↦
            rw deduped (confirm_first-Inv config _ id r status _ known (change_cache-Inv st _ inv))
        | inr plain ↦ rw plain (confirm_first-Inv config st id r status true known inv)
      ]

  pub record_confirm-Inv :
      (config : BackendConfig) (st : State) (id : Text) (status : ConfirmStatus)
      (install_id : Option Text) (now : ℕ)
      → Inv sha256_hex st
      → Inv sha256_hex (record_confirm config st id status install_id now).0
  unfolding record_confirm
  record_confirm-Inv config st id status install_id now inv =
      elim (Option-cases (get_release st.db id)) [
        | inl missing ↦ rw (missing, record_confirm) inv
        | inr (r, known) ↦
            rw (known, record_confirm)
              (confirm_found-Inv config st id r status install_id now known inv)
      ]
