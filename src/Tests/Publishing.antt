-- ===== src/Tests/Publishing.antt =====
-- Examples: the publishing of a release, step by step.
use dash_ota.Base.{◌===◌, set_add, ◌≡◌, refl, subst, true, false, some, [], ◌∷◌, text}
use dash_ota.Base.Int.{pos}
use dash_ota.Base.Number.{int}
use dash_ota.Base.Dict.{get, set}
use dash_ota.Providers.{ReleaseRecord}
use dash_ota.Manifest.{find_blob_entry, collect_blob_shas, total_blob_bytes}
use dash_ota.Providers.{blob_key}
use dash_ota.Store.Releases.{
  create_release, stage_blob, finalize_release, spool_to_temp, missing_blobs, rollback,
}
use dash_ota.Store.{State, empty_state}
use dash_ota.Store.Publishing.{Inv}
use dash_ota.Store.Publishing.Histories.{
  creates, sets_paused, rolls_back, step, run, run-Inv, step-Inv, empty_state-Inv,
}
use dash_ota.Store.Publishing.Permanence.{published_is_immutable, rollback_is_permanent}
use dash_ota.Tests.{id_hash, signed, release, history, published}

run-history : run id_hash empty_state history ≡ published
unfolding run step finalize_release get stage_blob create_release set ◌===◌ find_blob_entry
    spool_to_temp missing_blobs collect_blob_shas set_add total_blob_bytes blob_key
run-history = refl

run-Inv_example : Inv id_hash (run id_hash empty_state history)
run-Inv_example =
    run-Inv id_hash (λ a b e. e) empty_state history (tt, (tt, (tt, tt))) (empty_state-Inv id_hash)

pub stored_release : get published.db.releases (text "b1") ≡ some release
unfolding get ◌===◌
stored_release = refl

pub published-Inv : Inv id_hash published
published-Inv = subst (Inv id_hash) run-history (
    run-Inv id_hash (λ a b e. e) empty_state history (tt, (tt, (tt, tt))) (empty_state-Inv id_hash))

abbrev withdrawn : ReleaseRecord
withdrawn = record release { rolled_back = true; paused = true }

published_is_immutable_example :
    (s : ReleaseRecord) × (get
        (run id_hash published (creates signed (int (pos 1)) [] ∷ [])).db.releases
        (text "b1")
      ≡ some s)
    × (s.finalized ≡ true)
    × (s.signed_manifest ≡ signed)
published_is_immutable_example =
    published_is_immutable id_hash published (creates signed (int (pos 1)) [] ∷ []) (text "b1")
      release published-Inv.keyed stored_release refl

abbrev rolled : State
rolled = step id_hash published (rolls_back (text "b1"))

rolled_stored : get rolled.db.releases (text "b1") ≡ some withdrawn
unfolding step rollback get set ◌===◌
rolled_stored = refl

rollback_is_permanent_example :
    (s : ReleaseRecord) × (get
        (run id_hash rolled (sets_paused (text "b1") false ∷ [])).db.releases
        (text "b1")
      ≡ some s)
    × (s.rolled_back ≡ true)
rollback_is_permanent_example =
    rollback_is_permanent id_hash rolled (sets_paused (text "b1") false ∷ []) (text "b1") withdrawn
      (step-Inv id_hash (λ a b e. e) published (rolls_back (text "b1")) tt published-Inv).keyed
      rolled_stored refl
