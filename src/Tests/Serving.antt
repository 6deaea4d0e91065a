-- ===== src/Tests/Serving.antt =====
-- Examples: choosing the release and downloading its blob.
use dash_ota.Base.{◌≡◌, refl, arith, ◌===◌, some, none, List, [], ◌∷◌, Text, text, ℕ, ◌≢◌}
use dash_ota.Base.Dict.{get, set}
use dash_ota.Base.Scan.{parse_digits}
use dash_ota.Manifest.{find_blob_entry}
use dash_ota.Providers.{Bytes}
use dash_ota.Providers.Cache.{Call, peeks, run, peek_token, put_token, sweep, empty_cache}
use dash_ota.Store.{State}
use dash_ota.Store.Serving.{
  pick_eligible, sorted_releases, sort_newest, insert_newest, qualifies, best_of,
}
use dash_ota.Store.Serving.Choice.{IsChoice, pick_eligible-IsChoice}
use dash_ota.Store.Serving.Delivery.{IsOffer, pick_eligible-IsOffer}
use dash_ota.Store.Sessions.{issue_download_token, peek_download_token}
use dash_ota.Store.Sessions.Grants.{issued_grant, barred_bundle}
use dash_ota.Targeting.{is_eligible, rollout_bucket}
use dash_ota.Routes.{Request}
use dash_ota.Routes.Download.{sent, download}
use dash_ota.Routes.Download.Access.{IsBlob, IsRight, IsGranted, IsListed, download-IsRight}
use dash_ota.Routes.Download.Offers.{offer-download}
use dash_ota.Tests.{
  id_hash, zero_hash, any_order, config, content, blob, release, published, device,
}
use dash_ota.Tests.Publishing.{published-Inv}

chosen : pick_eligible zero_hash any_order published.db device ≡ some release
unfolding pick_eligible sorted_releases sort_newest insert_newest qualifies best_of is_eligible
    rollout_bucket parse_digits ◌===◌
chosen = refl

pick_eligible-IsChoice_example :
    IsChoice zero_hash any_order published.db device
      (pick_eligible zero_hash any_order published.db device)
pick_eligible-IsChoice_example = pick_eligible-IsChoice zero_hash any_order published.db device

pick_eligible-IsOffer_example : IsOffer id_hash zero_hash any_order published device release
pick_eligible-IsOffer_example =
    pick_eligible-IsOffer id_hash zero_hash any_order published device release published-Inv chosen

abbrev later_calls : List (ℕ × Call)
later_calls = (20, peeks (text "t")) ∷ []

abbrev issued : State
issued = record published {
  cache =
      run (issue_download_token config published.cache (text "t") (text "b1") (text "i1") 10)
        later_calls;
}

abbrev request : Request
request = record {
  method = text "GET";
  path = text "/ota/v2/releases/b1/blobs/x";
  install_id = none;
  nonce = none;
  timestamp = none;
  signature = none;
  download_token = some (text "t");
  range = none;
  raw_body = [];
}

listed : find_blob_entry release.signed_manifest.manifest content ≡ some blob
unfolding find_blob_entry ◌===◌
listed = refl

offer-download_example :
    (bytes : Bytes) × IsBlob id_hash content bytes 3
    × ((download issued request (text "b1") content 1500).1 ≡ sent 3 bytes)
offer-download_example =
    offer-download id_hash zero_hash any_order config published issued device release (text "t") 10
      1500 later_calls request content blob published-Inv chosen (refl, refl) (refl, refl) refl
      (omega arith, tt) (omega arith) (refl, refl) listed

download-IsRight_example :
    IsRight id_hash content
      (IsGranted id_hash content issued request (text "b1") 1500
        × IsListed issued.db (text "b1") content)
      (download issued request (text "b1") content 1500).1
download-IsRight_example =
    download-IsRight id_hash content issued request (text "b1") 1500 (record {
      distinct = published-Inv.distinct;
      keyed = published-Inv.keyed;
      hashed = published-Inv.hashed;
      whole = published-Inv.whole;
    })

issued_grant_example :
    (peek_download_token issued.cache (text "t") 1500).1
    ≡ some (record { bundle_id = text "b1"; install_id = text "i1" })
issued_grant_example =
    issued_grant config empty_cache (text "t") (text "b1") (text "i1") 10 1500 later_calls refl refl
      refl refl (omega arith, tt) (omega arith)

abbrev barred : Text
barred = text "b|1"

split_grant :
    (peek_download_token
      (issue_download_token config empty_cache (text "t") barred (text "i1") 10)
      (text "t")
      20).1
    ≡ some (record { bundle_id = text "b"; install_id = text "1" })
unfolding peek_download_token issue_download_token peek_token put_token sweep get set ◌===◌
split_grant = refl

barred_bundle_example : text "b" ≢ barred
barred_bundle_example =
    barred_bundle (issue_download_token config empty_cache (text "t") barred (text "i1") 10)
      (text "t") barred 20 (record { bundle_id = text "b"; install_id = text "1" }) refl split_grant
