-- ===== src/ApiKeys.antt =====
-- apps/web/src/components/dashboard/ApiKeyManager.tsx without its rendering: the keys of an account,
-- and the count of the active ones that it reports to the page that holds it. A handler reads the
-- keys of the render in which it was called; what it sets when its request ends is made of those.
pub mod Handlers
pub mod Reports
pub mod Overlap
mod Tests
use startup.Common.{
  ℕ, ◌+◌, Bool, true, false, not, Option, none, some, List, [], ◌∷◌, map, keep, length,
  if◌then◌else◌, Text, codes, text_eq, truthy, ◌or_else◌,
}

pub record ApiKeyListItem : Type 0 where
  pub id : Text
  pub key_prefix : Text
  pub name : Text
  pub is_active : Bool
  pub last_used_at : Option Text
  pub created_at : Text

pub record ApiKeyCreateResponse : Type 0 where
  pub id : Text
  pub key : Text
  pub key_prefix : Text
  pub name : Text

pub data LoadStatus : Type 0 where
  idle loading ready error : LoadStatus

-- The `useState` variables, the number of the effect that loads the keys, and the count that was
-- reported last.
pub record Manager : Type 0 where
  pub keys : List ApiKeyListItem
  pub status : LoadStatus
  pub name : Text
  pub new_secret : Option Text
  pub creating : Bool
  pub pending_revoke_id : Option Text
  pub revoking_id : Option Text
  pub copied : Bool
  pub error : Option Text
  pub effect : ℕ
  pub reported : ℕ

unfoldable pub first_manager : Manager
first_manager = record {
  keys = [];
  status = idle;
  name = codes "Default";
  new_secret = none;
  creating = false;
  pending_revoke_id = none;
  revoking_id = none;
  copied = false;
  error = none;
  effect = 0;
  reported = 0;
}

-- `keys.filter((key) => key.is_active).length`
unfoldable pub active_count : List ApiKeyListItem → ℕ
active_count keys = length (keep (λ key. key.is_active) keys)

-- `setKeys(keys)`, and the report of their count.
unfoldable pub set_and_report : List ApiKeyListItem → Manager → Manager
set_and_report keys s = record s { keys = keys; reported = active_count keys }

-- `{ ...key, is_active: false }` for the key with the ID.
unfoldable pub deactivate : Text → ApiKeyListItem → ApiKeyListItem
deactivate id key = if text_eq key.id id then record key { is_active = false } else key

-- How a request ends: with its answer, or with the message of an `Error`, or with another error.
pub data Reply (A : Type 0) : Type 0 where
  got : A → Reply A
  threw : Option Text → Reply A

-- `error instanceof Error && error.message ? error.message : fallback`
unfoldable pub error_message : Option Text → Text → Text
error_message message fallback = truthy message or_else fallback
