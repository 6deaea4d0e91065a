-- ===== src/Routes/Device/Refusals.antt =====
-- A refused report counts nothing.
use dash_ota.Base.{
  ℕ, ◌≡◌, refl, ◌∙◌, Bool, Option, none, some, Text, is_empty, Bool-cases, inl, inr,
}
use dash_ota.Base.Number.{Number}
use dash_ota.Config.{BackendConfig}
use dash_ota.Providers.{Bytes}
use dash_ota.Providers.Cache.{peek_token}
use dash_ota.Store.{State, Failure, Outcome, done, failed}
use dash_ota.Store.Adoption.{ConfirmStatus}
use dash_ota.Store.Policies.{Url}
use dash_ota.Store.Sessions.{ConfirmScope, consume_server_nonce, read_scope, is_reportable}
use dash_ota.Routes.{Request}
use dash_ota.Routes.Auth.{authenticate}
use dash_ota.Routes.Device.{confirm_install_id, post_confirm}
use dash_ota.Routes.Device.Answers.{db-if, db-authenticate}

module _ (sha256_hex : Bytes → Text) (to_number : Text → Number)
    (verify_ecdsa : (public_key message signature : Text) → Bool) (text_hash : Text → Text)
    (locale_le : Text → Text → Bool) (print_scope : ConfirmScope → Text)
    (parse_scope : Text → Option ConfirmScope) (parse_url : Text → Option Url)
    (config : BackendConfig) where
  db-consume_server_nonce :
      (st : State) (server_nonce : Option Text) (id bundle_id : Text) (status : ConfirmStatus)
      (now : ℕ)
      → (consume_server_nonce parse_scope config st server_nonce id bundle_id status now).0.db
        ≡ st.db
  unfolding consume_server_nonce
  db-consume_server_nonce st none id bundle_id status now = refl
  db-consume_server_nonce st (some nonce) id bundle_id status now =
      db-if (is_empty nonce) _ _ refl (
        db-if
          (is_reportable st (read_scope parse_scope (peek_token st.cache nonce now).1) id bundle_id
            status)
          _ _ refl refl)

  db-confirm_install_id :
      (x : State × Outcome Text) (body : Option (Text × ConfirmStatus)) (server_nonce : Option Text)
      (now : ℕ) (f : Failure)
      → (confirm_install_id sha256_hex to_number verify_ecdsa text_hash locale_le print_scope
          parse_scope parse_url config x body server_nonce now).1
        ≡ failed f
      → (confirm_install_id sha256_hex to_number verify_ecdsa text_hash locale_le print_scope
          parse_scope parse_url config x body server_nonce now).0.db
        ≡ x.0.db
  unfolding confirm_install_id
  db-confirm_install_id (st, failed g) body server_nonce now f e = refl
  db-confirm_install_id (st, done id) none server_nonce now f e = refl
  db-confirm_install_id (st, done id) (some (bundle_id, status)) server_nonce now f e =
      let valid =
        (consume_server_nonce parse_scope config st server_nonce id bundle_id status now).1 in
      elim (Bool-cases valid) [
        | inl accepted ↦ cc (rw accepted at e)
        | inr refused ↦ rw refused (db-consume_server_nonce st server_nonce id bundle_id status now)
      ]

  -- A report that the confirm endpoint refuses, for whatever reason, changes nothing that is stored: no
  -- counter moves and no release is paused.
  pub post_confirm-refused :
      (st : State) (r : Request) (body : Option (Text × ConfirmStatus)) (server_nonce : Option Text)
      (now : ℕ) (f : Failure)
      → (post_confirm sha256_hex to_number verify_ecdsa text_hash locale_le print_scope parse_scope
          parse_url config st r body server_nonce now).1
        ≡ failed f
      → (post_confirm sha256_hex to_number verify_ecdsa text_hash locale_le print_scope parse_scope
          parse_url config st r body server_nonce now).0.db
        ≡ st.db
  unfolding post_confirm
  post_confirm-refused st r body server_nonce now f e =
      db-confirm_install_id (authenticate sha256_hex to_number verify_ecdsa config st r now) body
        server_nonce now f e
      ∙ db-authenticate sha256_hex to_number verify_ecdsa config st r now
