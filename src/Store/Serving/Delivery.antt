-- ===== src/Store/Serving/Delivery.antt =====
-- An offered release can be downloaded whole.
use dash_ota.Base.{◌≡◌, sym, subst, ◌∙◌, Bool, true, false, some, Text, arith}
use dash_ota.Base.Dict.{get, get-of_values}
use dash_ota.Manifest.{BlobEntry, find_blob_entry}
use dash_ota.Providers.{ReleaseRecord, Bytes, stat, blob_key}
use dash_ota.Targeting.{DeviceContext}
use dash_ota.Targeting.Eligibility.{IsTargeted, is_eligible_iff}
use dash_ota.Store.{State}
use dash_ota.Store.Serving.{qualifies, pick_eligible, release_references, stat_blob}
use dash_ota.Store.Serving.Choice.{IsChoice, pick_eligible-IsChoice}
use dash_ota.Store.Publishing.{Inv}

module _ (bytes_hash : Bytes → Text) (text_hash : Text → Text)
    (locale_le : Text → Text → Bool) where
  -- What a device is promised of an offered release.
  pub record IsOffer (st : State) (device : DeviceContext) (r : ReleaseRecord) : Type 0 where
    pub stored : get st.db.releases r.bundle_id ≡ some r
    pub published : r.finalized ≡ true
    pub running : (r.paused ≡ false) × (r.rolled_back ≡ false)
    pub targeted : IsTargeted r.signed_manifest.manifest device
    pub available :
        (h : Text) (e : BlobEntry)
        → find_blob_entry r.signed_manifest.manifest h ≡ some e
        → stat_blob st r.bundle_id h ≡ some e.size

  stat_blob-stored :
      (st : State) (r : ReleaseRecord) (h : Text) {e : BlobEntry}
      → get st.db.releases r.bundle_id ≡ some r
      → find_blob_entry r.signed_manifest.manifest h ≡ some e
      → stat_blob st r.bundle_id h ≡ stat st.blobs (blob_key h)
  unfolding stat_blob release_references
  stat_blob-stored st r h stored found = rw (stored, release_references) (rw found)

  chosen-IsOffer :
      (st : State) (device : DeviceContext) (r : ReleaseRecord)
      → Inv bytes_hash st
      → IsChoice text_hash locale_le st.db device (some r)
      → IsOffer st device r
  unfolding qualifies
  chosen-IsOffer st device r inv (listed, fits, best) =
      let (id, found) = get-of_values st.db.releases inv.distinct listed in
      let stored : get st.db.releases r.bundle_id ≡ some r =
        subst (λ k. get st.db.releases k ≡ some r) (sym (inv.keyed id r found)) found in
      record {
        stored = stored;
        published = ground (arith, fits);
        running = (ground (arith, fits), ground (arith, fits));
        targeted = (is_eligible_iff r.signed_manifest.manifest device).0 (ground (arith, fits));
        available = λ h e known.
            stat_blob-stored st r h stored known
            ∙ inv.whole id r found (ground (arith, fits)) h e known;
      }

  -- Assume the store's invariant. A release that `pickEligible` offers stands in the store under its
  -- id, is published, neither paused nor withdrawn, fulfils the targeting rules for the device, and
  -- each blob that its manifest lists can be fetched through it at the size that the manifest gives.
  pub pick_eligible-IsOffer :
      (st : State) (device : DeviceContext) (r : ReleaseRecord)
      → Inv bytes_hash st
      → pick_eligible text_hash locale_le st.db device ≡ some r
      → IsOffer st device r
  pick_eligible-IsOffer st device r inv e =
      chosen-IsOffer st device r inv
        (rw e at (pick_eligible-IsChoice text_hash locale_le st.db device))
