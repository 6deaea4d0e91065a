-- ===== src/Store/Publishing/Keys.antt =====
-- packages/backend/src/store.ts: records and the ids that they stand under, across operations.
use dash_ota.Base.{
  ℕ, ◌≡◌, refl, ◌&&◌, Bool, true, false, Option, none, some, Text, Option-cases, Bool-cases, inl,
  inr, is_empty,
}
use dash_ota.Base.Number.{Number}
use dash_ota.Config.{BackendConfig}
use dash_ota.Manifest.{SignedManifest}
use dash_ota.Providers.{ReleaseRecord, get_release}
use dash_ota.Store.{State}
use dash_ota.Store.Releases.{
  is_finalized, new_record, create_release, finalize_release, finalize_found, update_release,
  missing_blobs,
}
use dash_ota.Store.Adoption.{
  ConfirmStatus, record_confirm, confirm_found, confirm_first, is_deduped, counted,
}
use dash_ota.Store.Policies.{record_retired_client, is_valid_channel, is_valid_platform}
use dash_ota.Store.Publishing.{IsKeyed}
use dash_ota.Store.Publishing.Operations.{IsKeyed-set}

abbrev pub AreKeyed : State → Type 0
AreKeyed st = IsKeyed st.db.releases

pub create_release-AreKeyed :
    (st : State) (sm : SignedManifest) (rollout : Number) (now_iso : Text)
    → AreKeyed st
    → AreKeyed (create_release st sm rollout now_iso).0
unfolding create_release
create_release-AreKeyed st sm rollout now_iso keyed =
    let existing = get_release st.db sm.manifest.bundle_id in
    elim (Bool-cases (is_finalized existing)) [
      | inl final ↦ rw final keyed
      | inr pending ↦
          rw pending (IsKeyed-set st.db.releases (new_record sm rollout now_iso existing) keyed)
    ]

pub update_release-AreKeyed :
    (st : State) (id : Text) (change : ReleaseRecord → ReleaseRecord)
    → AreKeyed st
    → AreKeyed (update_release st id change).0
update_release-AreKeyed st id change keyed = elim (Option-cases (get_release st.db id)) [
  | inl missing ↦ rw (missing, update_release) keyed
  | inr (r, known) ↦ rw (known, update_release) (IsKeyed-set st.db.releases (change r) keyed)
]

finalize_found-AreKeyed :
    (st : State) (r : ReleaseRecord) → AreKeyed st → AreKeyed (finalize_found st r).0
unfolding finalize_found
finalize_found-AreKeyed st r keyed = elim (Bool-cases r.finalized) [
  | inl already ↦ rw already keyed
  | inr pending ↦ elim (Bool-cases (is_empty (missing_blobs st.blobs r.signed_manifest.manifest))) [
    | inl whole ↦
        rw (pending, whole) (IsKeyed-set st.db.releases (record r { finalized = true }) keyed)
    | inr missing ↦ rw (pending, missing) keyed
  ]
]

pub finalize_release-AreKeyed :
    (st : State) (id : Text) → AreKeyed st → AreKeyed (finalize_release st id).0
unfolding finalize_release
finalize_release-AreKeyed st id keyed = elim (Option-cases (get_release st.db id)) [
  | inl missing ↦ rw (missing, finalize_release) keyed
  | inr (r, known) ↦ rw (known, finalize_release) (finalize_found-AreKeyed st r keyed)
]

confirm_first-AreKeyed :
    (config : BackendConfig) (st : State) (r : ReleaseRecord) (status : ConfirmStatus)
    (first : Bool)
    → AreKeyed st
    → AreKeyed (confirm_first config st r status first).0
unfolding confirm_first
confirm_first-AreKeyed config st r status true keyed =
    IsKeyed-set st.db.releases (counted config r status).0 keyed
confirm_first-AreKeyed config st r status false keyed = keyed

confirm_found-AreKeyed :
    (config : BackendConfig) (st : State) (id : Text) (r : ReleaseRecord) (status : ConfirmStatus)
    (install_id : Option Text) (now : ℕ)
    → AreKeyed st
    → AreKeyed (confirm_found config st r id status install_id now).0
unfolding confirm_found
confirm_found-AreKeyed config st id r status none now keyed =
    confirm_first-AreKeyed config st r status true keyed
confirm_found-AreKeyed config st id r status (some install_id) now keyed =
    elim (Bool-cases (is_deduped (some install_id) status)) [
      | inl deduped ↦ rw deduped (confirm_first-AreKeyed config _ r status _ keyed)
      | inr plain ↦ rw plain (confirm_first-AreKeyed config st r status true keyed)
    ]

pub record_confirm-AreKeyed :
    (config : BackendConfig) (st : State) (id : Text) (status : ConfirmStatus)
    (install_id : Option Text) (now : ℕ)
    → AreKeyed st
    → AreKeyed (record_confirm config st id status install_id now).0
unfolding record_confirm
record_confirm-AreKeyed config st id status install_id now keyed =
    elim (Option-cases (get_release st.db id)) [
      | inl missing ↦ rw (missing, record_confirm) keyed
      | inr (r, known) ↦
          rw (known, record_confirm)
            (confirm_found-AreKeyed config st id r status install_id now keyed)
    ]

-- The counter of retired clients stands beside the releases.
pub releases-record_retired_client :
    (st : State) (channel platform : Text)
    → (record_retired_client st channel platform).db.releases ≡ st.db.releases
unfolding record_retired_client
releases-record_retired_client st channel platform =
    elim (Bool-cases (is_valid_channel channel && is_valid_platform platform)) [
      | inl valid ↦ rw valid refl
      | inr other ↦ rw other refl
    ]
