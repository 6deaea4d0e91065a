-- ===== src/Tests/Requests.antt =====
-- Examples: signed requests, reports and admin commands. Every signature verifies.
use dash_ota.Base.{
  ◌≡◌, ◌≢◌, ◌↔◌, ap, refl, arith, ◌===◌, Bool, true, false, Option, some, none, [], ◌∷◌, Text, text,
}
use dash_ota.Base.Dict.{get, set}
use dash_ota.Base.Int.{pos}
use dash_ota.Base.Number.{Number, int}
use dash_ota.Json.{obj, field, end, str}
use dash_ota.Providers.{InstallRecord}
use dash_ota.Providers.Cache.{peeks, run, peek_token, put_token, sweep, register_nonce, empty_cache}
use dash_ota.Providers.Cache.Unseen.{recorded}
use dash_ota.Providers.Cache.Replay.{no_replay}
use dash_ota.Store.{State, done}
use dash_ota.Store.Adoption.{applied}
use dash_ota.Store.Policies.{Url}
use dash_ota.Store.Sessions.{
  ConfirmScope, store_nonce, is_reportable, covers, issue_server_nonce, consume_server_nonce,
}
use dash_ota.Store.Sessions.Reports.{IsAccepted, consume_server_nonce-IsAccepted, reported_once}
use dash_ota.Tests.Releases.{p}
use dash_ota.Routes.{Request}
use dash_ota.Routes.Admin.Requests.{Command, rollbacks, administer}
use dash_ota.Routes.Admin.Guards.{IsGuarded, administer-IsGuarded}
use dash_ota.Routes.Auth.{
  authenticate, check_install, check_headers, check_key, admit, is_signed, is_stale,
  signature_headers,
}
use dash_ota.Routes.Auth.Accepted.{IsAuthentic, authenticate-IsAuthentic}
use dash_ota.Routes.Auth.Replays.{no_second_authentication}
use dash_ota.Tests.{id_hash, any_order, config, published}

abbrev pub thousand : Text → Number
thousand t = int (pos 1000)

abbrev pub verifies : Text → Text → Text → Bool
verifies public_key message signature = true

abbrev install : InstallRecord
install = record {
  install_id = text "i1";
  device_public_key_b64 = text "key";
  platform = text "ios";
  channel = text "main";
  created_at = text "now";
}

abbrev pub enrolled : State
enrolled = record published { db = record published.db { installs = (text "i1", install) ∷ [] } }

abbrev pub check : Request
check = record {
  method = text "POST";
  path = text "/ota/v2/check";
  install_id = some (text "i1");
  nonce = some (text "n");
  timestamp = some (text "1000");
  signature = some (text "sig");
  download_token = none;
  range = none;
  raw_body = [];
}

admitted : (authenticate id_hash thousand verifies config enrolled check 1100).1 ≡ done (text "i1")
unfolding authenticate check_install check_headers check_key admit is_signed is_stale
    signature_headers store_nonce register_nonce sweep get ◌===◌
admitted = refl

abbrev admitting : State
admitting = (authenticate id_hash thousand verifies config enrolled check 1100).0

authenticate-IsAuthentic_example :
    (authenticate id_hash thousand verifies config enrolled check 1100
      ≡ (admitting, done (text "i1")))
    ↔ ((nonce : Text) × IsAuthentic id_hash thousand verifies config enrolled check 1100
          (text "i1")
          nonce
        × (admitting ≡ record enrolled { cache = recorded enrolled.cache nonce 600 1100 }))
authenticate-IsAuthentic_example =
    authenticate-IsAuthentic id_hash thousand verifies config enrolled admitting check 1100
      (text "i1") refl

abbrev after : State
after = record enrolled {
  cache =
      run (authenticate id_hash thousand verifies config enrolled check 1100).0.cache
        ((1150, peeks (text "t")) ∷ []);
}

no_second_authentication_example :
    (authenticate id_hash thousand verifies config after check 1200).1 ≢ done (text "i1")
no_second_authentication_example =
    no_second_authentication id_hash thousand verifies config enrolled after check check 1100 1200
      (text "i1") (text "i1") ((1150, peeks (text "t")) ∷ []) refl (omega arith) admitted refl refl
      refl (omega arith, tt)

fresh_nonce : (register_nonce empty_cache (text "n") 600 1100).1 ≡ true
unfolding register_nonce sweep get
fresh_nonce = refl

no_replay_example :
    (register_nonce
      (run (register_nonce empty_cache (text "n") 600 1100).0 ((1150, peeks (text "t")) ∷ []))
      (text "n")
      600
      1200).1
    ≡ false
no_replay_example =
    no_replay empty_cache (text "n") 600 1100 ((1150, peeks (text "t")) ∷ []) 600 1200 fresh_nonce
      (omega arith, tt) (omega arith)

abbrev scope : ConfirmScope
scope = record {
  install_id = text "i1";
  bundle_ids = text "b1" ∷ [];
  platform = text "ios";
  channel = text "main";
  runtime_version = text "r1";
  current_bundle_version = pos 0;
}

abbrev pub print : ConfirmScope → Text
print s = text "scope"

abbrev pub parse : Text → Option ConfirmScope
parse t = some scope

abbrev offered : State
offered = record published {
  cache = issue_server_nonce print config published.cache (text "sn") scope 10;
}

accepted_report :
    (consume_server_nonce parse config offered
      (some (text "sn"))
      (text "i1")
      (text "b1")
      applied
      20).1
    ≡ true
unfolding consume_server_nonce is_reportable covers issue_server_nonce put_token peek_token
    register_nonce sweep get set ◌===◌
accepted_report = refl

abbrev reporting : State
reporting =
    (consume_server_nonce parse config offered (some (text "sn")) (text "i1") (text "b1") applied
      20).0

consume_server_nonce-IsAccepted_example :
    IsAccepted parse config offered reporting (text "sn") (text "i1") (text "b1") applied 20
consume_server_nonce-IsAccepted_example =
    consume_server_nonce-IsAccepted parse config offered reporting (text "sn") (text "i1")
      (text "b1") applied 20 (ap (λ (b : Bool). (reporting, b)) accepted_report)

abbrev reported : State
reported = record published {
  cache =
      run
        (consume_server_nonce parse config offered (some (text "sn")) (text "i1") (text "b1")
          applied 20).0.cache
        ((25, peeks (text "sn")) ∷ []);
}

reported_once_example :
    (consume_server_nonce parse config reported
      (some (text "sn"))
      (text "i1")
      (text "b1")
      applied
      30).1
    ≡ false
reported_once_example =
    reported_once parse config offered reported (text "sn") (text "i1") (text "i1") (text "b1")
      applied 20 30 ((25, peeks (text "sn")) ∷ []) accepted_report refl (omega arith, tt)
      (omega arith)

abbrev pub no_url : Text → Option Url
no_url t = none

abbrev withdrawal : Command
withdrawal = rollbacks (some (obj (field (text "bundleId") (str (text "b1")) end)))

administer-IsGuarded_example : IsGuarded id_hash config (some (text "guess")) published (
    administer id_hash id_hash no_url any_order p some config published
      (some (text "guess"))
      withdrawal)
administer-IsGuarded_example =
    administer-IsGuarded id_hash config id_hash no_url any_order p some published
      (some (text "guess")) withdrawal (λ a b e. e)
