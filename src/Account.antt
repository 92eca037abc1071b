-- ===== src/Account.antt =====
-- apps/web/src/lib/auth-sync.ts, and the user of lib/auth-context.ts.
pub mod Laws
mod Tests
use startup.Common.{ℕ, Option, none, some, List, [], ◌∷◌, Text, codes, split, truthy}
use startup.Json.{Json, str, obj, Members, end, member}
use startup.Api.Transport.{Platform, Fetched, Outcome, Effect}
use startup.Api.Request.{Entropy, RequestOptions, post_json}

pub record AppUser : Type 0 where
  pub id : Text
  pub first_name : Option Text
  pub last_name : Option Text
  pub username : Option Text
  pub full_name : Option Text
  pub image_url : Option Text
  pub email_addresses : List Text

-- A property that is undefined is left out of the text of the body.
unfoldable pub text_member : Text → Option Text → Members → Members
text_member name none rest = rest
text_member name (some s) rest = member name (str s) rest

abbrev pub first_of {ℓ} : {A : Type ℓ} → List A → Option A
first_of [] = none
first_of (a ∷ rest) = some a

unfoldable pub primary_email : AppUser → Option Text
primary_email user = truthy (first_of user.email_addresses)

-- `user.fullName ?? user.username ?? primaryEmail.split("@")[0]`
unfoldable pub display_name : Option Text → Option Text → Text → Option Text
display_name (some name) username email = some name
display_name none (some name) email = some name
display_name none none email = first_of (split b'@' email)

unfoldable pub auth_sync_body : AppUser → Text → Json
auth_sync_body user email = obj (
    member (codes "email") (str email) (
      text_member (codes "username") user.username (
        text_member (codes "display_name") (display_name user.full_name user.username email)
          (text_member (codes "avatar_url") user.image_url end))))

unfoldable pub build_auth_sync_payload : AppUser → Option Json
build_auth_sync_payload user = elim (primary_email user) [
  | none ↦ none
  | some email ↦ some (auth_sync_body user email)
]

abbrev pub sync_options : Text → RequestOptions
sync_options token = record {
  token = some token;
  cache = none;
  next = none;
  timeout_ms = none;
  request_id = none;
}

module _ (js : Platform) (network : ℕ → Fetched) (entropy : Entropy) where
  sync_payload : Text → Option Json → Option (Option Outcome × List Effect)
  sync_payload token none = none
  sync_payload token (some body) =
      some (post_json js network entropy (codes "/auth/sync") body (sync_options token))

  -- `none`: null, without a request.
  unfoldable pub sync_current_user : AppUser → Option Text → Option (Option Outcome × List Effect)
  unfolding sync_payload
  sync_current_user user token = elim (truthy token) [
    | none ↦ none
    | some t ↦ sync_payload t (build_auth_sync_payload user)
  ]
