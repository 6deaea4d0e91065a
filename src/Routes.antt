-- ===== src/Routes.antt =====
-- packages/backend/src/routes.ts: what the handlers share. The headers of a request are those that
-- the handlers read, absent or with their first value.
pub mod Admin
pub mod Auth
pub mod Device
pub mod Download
pub mod Retired
use dash_ota.Base.{
  ◌≡◌, ◌≢◌, ◌↔◌, refl, ap, sym, ◌∙◌, arith, [], ◌∷◌, Option, none, some, Text, is_empty,
  if◌then◌else◌,
}
use dash_ota.Providers.{Bytes}

pub record Request : Type 0 where
  pub method : Text
  pub path : Text
  pub install_id : Option Text
  pub nonce : Option Text
  pub timestamp : Option Text
  pub signature : Option Text
  pub download_token : Option Text
  pub range : Option Text
  pub raw_body : Bytes

-- A text that is there and not empty, as the tests `!value` of the handlers read it.
abbrev pub given : Option Text → Option Text
given none = none
given (some s) = if is_empty s then none else some s

-- The field is there with this text, which is not empty.
abbrev pub Carries : Option Text → Text → Type 0
Carries field t = (field ≡ some t) × (t ≢ [])

pub given_iff : (field : Option Text) (t : Text) → (given field ≡ some t) ↔ Carries field t
given_iff none t = (λ e. cc e, λ h. cc (h.0))
given_iff (some []) t = (λ e. cc e, λ h. absurd ground (arith, h))
given_iff (some (c ∷ cs)) t = (λ e. (e, λ z. cc (e, z)), λ h. h.0)
