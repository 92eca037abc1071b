-- ===== src/ApiKeys/Handlers.antt =====
-- The effect and the handlers, and all that can happen to the manager.
use startup.Common.{
  ℕ, ◌+◌, Bool, true, false, not, ◌||◌, Option, none, some, List, [], ◌∷◌, map, ◌==◌, if◌then◌else◌,
  is_some, Text, codes, is_blank, trim, truthy,
}
use startup.ApiKeys.{
  ApiKeyListItem, ApiKeyCreateResponse, idle, loading, ready, error, Manager, set_and_report,
  deactivate, Reply, got, threw, error_message,
}

-- The effect, which runs when the account changes, up to its first `await`.
unfoldable pub begin_load : (is_loaded is_signed_in : Bool) → Manager → Manager
begin_load is_loaded is_signed_in s =
    let next = record s { effect = s.effect + 1 } in
    if not is_loaded
    then next
    else if not is_signed_in
    then set_and_report [] (record next { status = idle })
    else record next { status = loading; error = none }

loaded : Reply (List ApiKeyListItem) → Manager → Manager
loaded (got keys) s = set_and_report keys (record s { status = ready })
loaded (threw message) s = record s {
  keys = [];
  status = error;
  error = some (error_message message (codes "API keys could not be loaded."));
}

-- An answer counts only for the last effect.
unfoldable pub end_load : ℕ → Reply (List ApiKeyListItem) → Manager → Manager
unfolding loaded
end_load n reply s = if n == s.effect then loaded reply s else s

-- `createKey`: the state, and the name that is sent with the keys of that render, if one is.
unfoldable pub begin_create : Manager → Manager × Option (Text × List ApiKeyListItem)
begin_create s =
    if is_blank (trim s.name) || s.creating
    then (s, none)
    else (record s { creating = true; error = none; copied = false }, some (trim s.name, s.keys))

unfoldable pub new_item : ApiKeyCreateResponse → Text → ApiKeyListItem
new_item created now = record {
  id = created.id;
  key_prefix = created.key_prefix;
  name = created.name;
  is_active = true;
  last_used_at = none;
  created_at = now;
}

-- `now` is the time at which the answer came.
unfoldable pub end_create :
    List ApiKeyListItem → Text → Reply ApiKeyCreateResponse → Manager → Manager
end_create captured now (got created) s =
    set_and_report (new_item created now ∷ captured) (record s {
      new_secret = some created.key;
      name = codes "Default";
      status = ready;
      creating = false;
    })
end_create captured now (threw message) s = record s {
  error = some (error_message message (codes "The API key could not be created."));
  creating = false;
}

-- `revokeKey`: the state, and the keys of that render, if a request is made.
unfoldable pub begin_revoke : Text → Manager → Manager × Option (List ApiKeyListItem)
begin_revoke key_id s =
    if is_some (truthy s.revoking_id)
    then (s, none)
    else (record s { revoking_id = some key_id; error = none }, some s.keys)

unfoldable pub end_revoke : Text → List ApiKeyListItem → Reply (Unit {0}) → Manager → Manager
end_revoke key_id captured (got _) s =
    set_and_report (map (deactivate key_id) captured)
      (record s { pending_revoke_id = none; revoking_id = none })
end_revoke key_id captured (threw message) s = record s {
  error = some (error_message message (codes "The API key could not be revoked."));
  revoking_id = none;
}

-- `copySecret`, whose write to the clipboard may fail.
unfoldable pub copy_secret : Bool → Manager → Manager
copy_secret is_written s =
    if not (is_some (truthy s.new_secret))
    then s
    else if is_written
    then record s { copied = true }
    else record s {
      error = some (codes "Clipboard access was blocked. Select the key and copy it manually.");
    }

-- What the visitor does, and the ends of the requests, with the keys that each had captured.
pub data Event : Type 0 where
  account_changed : (is_loaded is_signed_in : Bool) → Event
  load_ended : ℕ → Reply (List ApiKeyListItem) → Event
  name_typed : Text → Event
  create_began : Event
  create_ended : List ApiKeyListItem → Text → Reply ApiKeyCreateResponse → Event
  revoke_asked : Option Text → Event
  revoke_began : Text → Event
  revoke_ended : Text → List ApiKeyListItem → Reply (Unit {0}) → Event
  secret_copied : Bool → Event
  secret_dismissed : Event

unfoldable pub handle : Event → Manager → Manager
handle (account_changed is_loaded is_signed_in) s = begin_load is_loaded is_signed_in s
handle (load_ended n reply) s = end_load n reply s
handle (name_typed v) s = record s { name = v }
handle create_began s = (begin_create s).0
handle (create_ended captured now reply) s = end_create captured now reply s
handle (revoke_asked id) s = record s { pending_revoke_id = id }
handle (revoke_began id) s = (begin_revoke id s).0
handle (revoke_ended id captured reply) s = end_revoke id captured reply s
handle (secret_copied is_written) s = copy_secret is_written s
handle secret_dismissed s = record s { new_secret = none }

unfoldable pub run : Manager → List Event → Manager
run s [] = s
run s (e ∷ es) = run (handle e s) es
