-- ===== src/Tests/Devices.antt =====
-- Examples: the check and the confirm endpoint, for an enrolled install whose signatures verify.
use dash_ota.Base.{◌≡◌, refl, ◌===◌, some, none, [], text}
use dash_ota.Base.Dict.{get, set}
use dash_ota.Base.Int.{pos}
use dash_ota.Base.Scan.{parse_digits}
use dash_ota.Codes.{bad_nonce}
use dash_ota.Providers.{ReleaseRecord, fine}
use dash_ota.Providers.Cache.{register_nonce, sweep, rate_limit, peek_token}
use dash_ota.Store.{Failure, failed, done}
use dash_ota.Store.Adoption.{applied}
use dash_ota.Store.Policies.{resolve_native_policy}
use dash_ota.Store.Serving.{
  pick_eligible, sorted_releases, sort_newest, insert_newest, qualifies, best_of,
}
use dash_ota.Store.Serving.Delivery.{IsOffer}
use dash_ota.Store.Sessions.{store_nonce, check_rate, consume_server_nonce, is_reportable}
use dash_ota.Targeting.{DeviceContext, is_eligible, rollout_bucket}
use dash_ota.Routes.Auth.{
  authenticate, check_install, check_headers, check_key, admit, is_signed, is_stale,
  signature_headers,
}
use dash_ota.Routes.Device.{
  CheckRequest, CheckResponse, limited, device_of, answer_check, check_device, check_install_id,
  post_check, confirm_install_id, post_confirm,
}
use dash_ota.Routes.Device.Answers.{IsDescribed, post_check-IsOffer}
use dash_ota.Routes.Device.Refusals.{post_confirm-refused}
use dash_ota.Tests.{id_hash, zero_hash, any_order, config, signed}
use dash_ota.Tests.Publishing.{published-Inv}
use dash_ota.Tests.Requests.{thousand, verifies, enrolled, check, no_url, print, parse}

abbrev body : CheckRequest
body = record {
  runtime_version = some (text "r1");
  platform = some (text "ios");
  channel = some (text "main");
  app_version = text "1.0.0";
  build_number = pos 1;
  current_bundle_version = none;
  current_bundle_id = none;
}

abbrev response : CheckResponse
response = record {
  update = some signed;
  download_token = some (text "t");
  server_nonce = text "sn";
  native_policy = record {
    min_supported_native_version = pos 0;
    severity = fine;
    store_url = none;
  };
}

answered :
    (post_check id_hash thousand verifies zero_hash any_order print parse no_url config
      (text "t")
      (text "sn")
      enrolled
      check
      (some body)
      1100).1
    ≡ done response
unfolding post_check check_install_id limited device_of answer_check check_device authenticate
    check_install check_headers check_key admit is_signed is_stale signature_headers store_nonce
    register_nonce sweep get set ◌===◌ check_rate rate_limit pick_eligible sorted_releases
    sort_newest insert_newest qualifies best_of is_eligible rollout_bucket parse_digits
    resolve_native_policy
answered = refl

post_check-IsOffer_example :
    (device : DeviceContext) × IsDescribed device (some body)
    × ((authenticate id_hash thousand verifies config enrolled check 1100).1
        ≡ done device.install_id)
    × (offered : ReleaseRecord) × IsOffer id_hash zero_hash any_order enrolled device offered
    × (offered.signed_manifest ≡ signed)
    × (response.download_token ≡ some (text "t"))
post_check-IsOffer_example =
    post_check-IsOffer id_hash thousand verifies zero_hash any_order print parse no_url config
      (text "t") (text "sn") enrolled check (some body) 1100 response signed
      (record {
        distinct = published-Inv.distinct;
        keyed = published-Inv.keyed;
        hashed = published-Inv.hashed;
        whole = published-Inv.whole;
      })
      answered refl

abbrev unknown_nonce : Failure
unknown_nonce = record { status = 401; code = bad_nonce; missing = [] }

refused :
    (post_confirm id_hash thousand verifies zero_hash any_order print
      (λ t. none)
      no_url
      config
      enrolled
      check
      (some (text "b1", applied))
      (some (text "sn"))
      1100).1
    ≡ failed unknown_nonce
unfolding post_confirm confirm_install_id authenticate check_install check_headers check_key admit
    is_signed is_stale signature_headers store_nonce register_nonce sweep get set ◌===◌
    consume_server_nonce is_reportable peek_token
refused = refl

post_confirm-refused_example :
    (post_confirm id_hash thousand verifies zero_hash any_order print
      (λ t. none)
      no_url
      config
      enrolled
      check
      (some (text "b1", applied))
      (some (text "sn"))
      1100).0.db
    ≡ enrolled.db
post_confirm-refused_example =
    post_confirm-refused id_hash thousand verifies zero_hash any_order print (λ t. none) no_url
      config enrolled check (some (text "b1", applied)) (some (text "sn")) 1100 unknown_nonce
      refused
