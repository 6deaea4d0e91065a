-- ===== src/Tests/Session.antt =====
-- Examples for the device's requests: a device that the backend does not know asks for updates.
use dash_ota.Base.{ℕ, suc, ◌≡◌, refl, Bool, true, none, some, inl, [], Text, text}
use dash_ota.Base.Dict.{get}
use dash_ota.Base.Int.{pos}
use dash_ota.Store.Sessions.{store_nonce}
use dash_ota.Providers.Cache.{register_nonce, sweep}
use dash_ota.Routes.Auth.{is_stale}
use dash_ota.Routes.Device.{CheckResponse}
use dash_ota.Client.Session.{
  Keystore, Device, Storage, Stamp, CheckBody, returned, ok, Server, check_body, check_for_update,
  create_client_context, enroll_if_needed, get_install_id,
}
use dash_ota.Client.Session.Backend.{Host, backend, read_check, IsFresh}
use dash_ota.Client.Session.Recovery.{check_for_update-answered}
use dash_ota.Client.Session.Starts.{create_client_context-again}
use dash_ota.Tests.{id_hash, zero_hash, any_order, config, published}
use dash_ota.Tests.Requests.{thousand, verifies}

abbrev device : Device
device = record {
  platform = text "ios";
  channel = text "main";
  runtime_version = text "r1";
  app_version = text "1.0.0";
  build_number = pos 1;
  public_key = text "key";
  enroll_token = none;
}

abbrev keystore : Keystore
keystore = record { sha256_hex = λ t. t; sign = λ m. text "sig"; utf8 = λ t. t }

abbrev storage : Storage
storage = record { install_id = some (text "i9"); enrolled = none }

abbrev body : CheckBody
body = check_body device (text "i9") (pos 0) [] []

abbrev print : CheckBody → Text
print b = text "body"

abbrev host : Host
host = record {
  sha256_hex = id_hash;
  to_number = thousand;
  verify_ecdsa = verifies;
  text_hash = zero_hash;
  locale_le = any_order;
  print_scope = λ scope. text "scope";
  parse_scope = λ t. none;
  parse_url = λ t. none;
  config = record config { check_rate_limit = 0; enroll_rate_limit = 0 };
  authorize = none;
  parse = λ bytes. some (read_check body);
  times = λ n. 1100;
  tokens = λ n. text "token";
  nonces = λ n. text "nonce";
  iso = λ n. text "now";
}

abbrev first : Stamp
first = record { nonce = text "n1"; timestamp = text "1000" }

abbrev second : Stamp
second = record { nonce = text "n2"; timestamp = text "1000" }

first-IsFresh : IsFresh host published 0 first
unfolding is_stale store_nonce register_nonce sweep get
first-IsFresh = record { nonce = refl; timestamp = refl; in_time = refl; first = refl }

second-IsFresh : IsFresh host published 2 second
unfolding is_stale store_nonce register_nonce sweep get
second-IsFresh = record { nonce = refl; timestamp = refl; in_time = refl; first = refl }

check_for_update-answered_example :
    (response : CheckResponse) × ((check_for_update keystore
        (backend host)
        device
        print
        (text "i9")
        first
        second
        (pos 0)
        []
        []
        storage
        (published, 0)).1
      ≡ returned response)
unfolding get
check_for_update-answered_example =
    check_for_update-answered host keystore device
      (record { key = refl; signature = λ m. refl; verified = λ m. refl; hashed = λ t. refl }) print
      (text "i9") first second (pos 0) [] [] storage published 0 refl refl refl refl
      (record { runtime_version = refl; platform = refl; channel = refl }) refl refl (inl refl)
      first-IsFresh second-IsFresh

-- A server that counts the enrolments.
abbrev counter : Server ℕ Bool
counter = record { enroll = λ n enrolment. (suc n, ok true); post = λ n request. (n, ok true) }

create_client_context-again_example :
    create_client_context keystore counter device
      (text "i8")
      (create_client_context keystore counter device (text "i7") storage 0).0.0
      (create_client_context keystore counter device (text "i7") storage 0).0.1
    ≡ (
      (create_client_context keystore counter device (text "i7") storage 0).0,
      returned (text "i9"),
    )
unfolding create_client_context enroll_if_needed get_install_id
create_client_context-again_example =
    create_client_context-again keystore counter device (text "i7") (text "i8") (text "i9") storage
      0 refl refl
