-- ===== src/ApiKeys/Tests.antt =====
-- The manager of the keys at concrete inputs.
use startup.Common.{◌≡◌, true, none, List, [], ◌∷◌, codes, arith}
use startup.ApiKeys.{ApiKeyListItem, ApiKeyCreateResponse, first_manager, active_count, got}
use startup.ApiKeys.Handlers.{
  Event, account_changed, load_ended, name_typed, create_began, revoke_began, create_ended,
  revoke_ended, run,
}
use startup.ApiKeys.Reports.{run-Reports}

abbrev old_key : ApiKeyListItem
old_key = record {
  id = codes "k1";
  key_prefix = codes "hm_1";
  name = codes "Default";
  is_active = true;
  last_used_at = none;
  created_at = codes "2026-01-01";
}

abbrev created : ApiKeyCreateResponse
created = record {
  id = codes "k2";
  key = codes "hm_2_secret";
  key_prefix = codes "hm_2";
  name = codes "CI";
}

abbrev events : List Event
events =
    account_changed true true
    ∷ load_ended 1 (got (old_key ∷ []))
    ∷ revoke_began (codes "k1")
    ∷ name_typed (codes "CI")
    ∷ create_began
    ∷ create_ended (old_key ∷ []) (codes "2026-01-02") (got created)
    ∷ revoke_ended (codes "k1") (old_key ∷ []) (got tt)
    ∷ []

run-Reports_example :
    (run first_manager events).reported ≡ active_count (run first_manager events).keys
run-Reports_example = run-Reports events (ground arith)
