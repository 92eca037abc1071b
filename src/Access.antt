-- ===== src/Access.antt =====
-- The gate in front of the two pages for admins: the effect that verifies an account, in
-- apps/web/src/app/approver/ApproverClient.tsx and apps/web/src/app/admin/page.tsx. An effect runs
-- when the account changes, and an answer to the verification of an earlier effect may still come
-- later, which is what the flag `active` of the sources is for: an effect has a number here, and it
-- is active as long as it is the last one.
pub mod Verify
pub mod Safety
mod Tests
use startup.Common.{
  ℕ, zero, ◌+◌, Bool, true, false, not, ◌&&◌, Option, none, some, ◌==◌, if◌then◌else◌, is_some,
  Text, codes, truthy,
}
use startup.Account.{AppUser}

pub data Access : Type 0 where
  checking ready signed_out forbidden not_configured error : Access

-- What the pages read of `useCurrentAccount()`.
pub record CurrentAccount : Type 0 where
  pub is_loaded : Bool
  pub is_auth_configured : Bool
  pub is_signed_in : Bool
  pub user : Option AppUser

-- The `useState` variables.
pub record Gate : Type 0 where
  pub access : Access
  pub admin_token : Option Text
  pub access_error : Option Text

unfoldable pub first_gate : Gate
first_gate = record { access = checking; admin_token = none; access_error = none }

-- The user whose role the effect verifies, if it gets so far.
unfoldable pub user_to_verify : CurrentAccount → Option AppUser
user_to_verify account =
    if account.is_loaded && (account.is_auth_configured && account.is_signed_in)
    then account.user
    else none

-- The effect up to its first `await`.
unfoldable pub begin_effect : CurrentAccount → Gate → Gate
begin_effect account g =
    if not account.is_loaded
    then record g { access = checking }
    else if not account.is_auth_configured
    then record g { admin_token = none; access = not_configured }
    else if not (account.is_signed_in && is_some account.user)
    then record g { admin_token = none; access = signed_out }
    else record g { access = checking; access_error = none }

abbrev pub is_ready : Access → Bool
is_ready ready = true
is_ready _ = false

-- The token with which the page behind the gate is shown, if it is.
unfoldable pub shown_with : Gate → Option Text
shown_with g = if is_ready g.access then truthy g.admin_token else none
