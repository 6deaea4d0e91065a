-- ===== src/Store/Publishing/Evolution.antt =====
-- What no operation undoes: publication, its manifest, and withdrawal.
use dash_ota.Base.{
  ℕ, ◌≡◌, refl, sym, ◌∙◌, Bool, true, false, Option, none, some, Text, ◌===◌, eq_iff, subst, arith,
  Option-cases, Bool-cases, inl, inr, is_empty,
}
use dash_ota.Base.Dict.{Dict, get, set, get-set}
use dash_ota.Base.Number.{Number}
use dash_ota.Config.{BackendConfig}
use dash_ota.Manifest.{SignedManifest}
use dash_ota.Providers.{ReleaseRecord, get_release}
use dash_ota.Store.{State}
use dash_ota.Store.Releases.{
  is_finalized, new_record, create_release, finalize_release, finalize_found, update_release,
  missing_blobs,
}
use dash_ota.Store.Adoption.{
  ConfirmStatus, record_confirm, confirm_found, confirm_first, is_deduped, counted,
}
use dash_ota.Store.Publishing.{IsKeyed}

-- A later state of one record.
pub record Evolves (r s : ReleaseRecord) : Type 0 where
  pub published : r.finalized ≡ true → s.finalized ≡ true
  pub immutable : r.finalized ≡ true → s.signed_manifest ≡ r.signed_manifest
  pub withdrawn : r.rolled_back ≡ true → s.rolled_back ≡ true

pub Evolves-self : (r : ReleaseRecord) → Evolves r r
Evolves-self r = record { published = λ e. e; immutable = λ e. refl; withdrawn = λ e. e }

-- The record that stands under `id` later on.
abbrev pub Later : Dict ReleaseRecord → Text → ReleaseRecord → Type 0
Later releases id r = (s : ReleaseRecord) × (get releases id ≡ some s) × Evolves r s

-- Storing a record keeps the others, and evolves the one that it replaces.
set-Later :
    (releases : Dict ReleaseRecord) (r s : ReleaseRecord) (id : Text)
    → get releases id ≡ some r
    → ((s.bundle_id === id) ≡ true → Evolves r s)
    → Later (set releases s.bundle_id s) id r
set-Later releases r s id known evolves = elim (Bool-cases (s.bundle_id === id)) [
  | inl here ↦ (s, ground (arith, get-set releases s.bundle_id id s), evolves here)
  | inr there ↦ (r, ground (arith, known, get-set releases s.bundle_id id s), Evolves-self r)
]

-- So does replacing a stored record by one that it evolves into.
replace-Later :
    (releases : Dict ReleaseRecord) (id other : Text) (r s t : ReleaseRecord)
    → IsKeyed releases
    → get releases id ≡ some r
    → get releases other ≡ some s
    → t.bundle_id ≡ s.bundle_id
    → Evolves s t
    → Later (set releases t.bundle_id t) id r
replace-Later releases id other r s t keyed known found same evolves =
    set-Later releases r t id known λ here.
      let at : other ≡ id = sym (keyed other s found) ∙ sym same ∙ (eq_iff t.bundle_id id).0 here in
      let one : s ≡ r = ground (arith, at, known, found) in subst (λ q. Evolves q t) one evolves

pub create_release-Later :
    (st : State) (sm : SignedManifest) (rollout : Number) (now_iso : Text) (id : Text)
    (r : ReleaseRecord)
    → get st.db.releases id ≡ some r
    → Later (create_release st sm rollout now_iso).0.db.releases id r
unfolding create_release
create_release-Later st sm rollout now_iso id r known =
    elim (Bool-cases (is_finalized (get_release st.db sm.manifest.bundle_id))) [
      | inl final ↦ rw final (r, known, Evolves-self r)
      | inr pending ↦ rw pending (
          set-Later st.db.releases r
            (new_record sm rollout now_iso (get_release st.db sm.manifest.bundle_id)) id known
            (λ here.
              let same = (eq_iff sm.manifest.bundle_id id).0 here in
              let at : get_release st.db sm.manifest.bundle_id ≡ some r = rw same known in
              record {
                published = λ final. ground (arith, at, pending);
                immutable = λ final. ground (arith, at, pending);
                withdrawn = λ gone. rw at gone;
              }))
    ]

pub update_release-Later :
    (st : State) (other : Text) (change : ReleaseRecord → ReleaseRecord) (id : Text)
    (r : ReleaseRecord)
    → ((s : ReleaseRecord) → ((change s).bundle_id ≡ s.bundle_id) × Evolves s (change s))
    → IsKeyed st.db.releases
    → get st.db.releases id ≡ some r
    → Later (update_release st other change).0.db.releases id r
update_release-Later st other change id r evolves keyed known =
    elim (Option-cases (get_release st.db other)) [
      | inl missing ↦ rw (missing, update_release) (r, known, Evolves-self r)
      | inr (s, found) ↦
          rw (found, update_release)
            (replace-Later st.db.releases id other r s (change s) keyed known found (evolves s).0
              (evolves s).1)
    ]

pub finalize_release-Later :
    (st : State) (other id : Text) (r : ReleaseRecord)
    → IsKeyed st.db.releases
    → get st.db.releases id ≡ some r
    → Later (finalize_release st other).0.db.releases id r
unfolding finalize_release finalize_found
finalize_release-Later st other id r keyed known = elim (Option-cases (get_release st.db other)) [
  | inl missing ↦ rw (missing, finalize_release) (r, known, Evolves-self r)
  | inr (s, found) ↦
      let replaced =
        replace-Later st.db.releases id other r s (record s { finalized = true }) keyed known found
          refl (record { published = λ e. refl; immutable = λ e. refl; withdrawn = λ e. e }) in
      let kept : Later st.db.releases id r = (r, known, Evolves-self r) in
      rw (found, finalize_release)
        (elim (Bool-cases s.finalized) [
          | inl already ↦ rw already kept
          | inr pending ↦
              elim (Bool-cases (is_empty (missing_blobs st.blobs s.signed_manifest.manifest))) [
                | inl whole ↦ rw (pending, whole) replaced
                | inr missing ↦ rw (pending, missing) kept
              ]
        ])
]

confirm_first-Later :
    (config : BackendConfig) (st : State) (other id : Text) (r s : ReleaseRecord)
    (status : ConfirmStatus) (first : Bool)
    → IsKeyed st.db.releases
    → get st.db.releases id ≡ some r
    → get st.db.releases other ≡ some s
    → Later (confirm_first config st s status first).0.db.releases id r
unfolding confirm_first
confirm_first-Later config st other id r s status true keyed known found =
    replace-Later st.db.releases id other r s (counted config s status).0 keyed known found refl
      (record { published = λ e. e; immutable = λ e. refl; withdrawn = λ e. e })
confirm_first-Later config st other id r s status false keyed known found =
    (r, known, Evolves-self r)

pub record_confirm-Later :
    (config : BackendConfig) (st : State) (other id : Text) (r : ReleaseRecord)
    (status : ConfirmStatus) (install_id : Option Text) (now : ℕ)
    → IsKeyed st.db.releases
    → get st.db.releases id ≡ some r
    → Later (record_confirm config st other status install_id now).0.db.releases id r
unfolding record_confirm confirm_found
record_confirm-Later config st other id r status install_id now keyed known =
    elim (Option-cases (get_release st.db other)) [
      | inl missing ↦ rw (missing, record_confirm) (r, known, Evolves-self r)
      | inr (s, found) ↦ rw (found, record_confirm) (found_case s found install_id)
    ]
  where
    found_case :
        (s : ReleaseRecord)
        → get st.db.releases other ≡ some s
        → (o : Option Text)
        → Later (confirm_found config st s other status o now).0.db.releases id r
    found_case s found none =
        confirm_first-Later config st other id r s status true keyed known found
    found_case s found (some install_id) = elim (Bool-cases (is_deduped (some install_id) status)) [
      | inl deduped ↦
          rw deduped (confirm_first-Later config _ other id r s status _ keyed known found)
      | inr plain ↦
          rw plain (confirm_first-Later config st other id r s status true keyed known found)
    ]
