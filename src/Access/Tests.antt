-- ===== src/Access/Tests.antt =====
-- The gate at concrete inputs: an admin signs in, and an answer for an earlier account comes late.
use startup.Common.{
  ℕ, refl, true, false, none, some, [], ◌∷◌, codes, truthy, text_eq, includes, starts_with,
}
use mathlib.Core.List.{Memᴰ}
use startup.Json.{str, obj, member, end, get, lookup_member, as_text}
use startup.Env.{is_set_to, should_skip_build_time_fetch}
use startup.Api.Errors.{parse_response_body}
use startup.Api.Errors.{whole}
use startup.Api.Transport.{
  Platform, Fetched, response, round, round_with_data, fetch_with_timeout, catch_fetch,
  request_with_retry,
}
use startup.Api.Request.{Entropy, request, post_json}
use startup.Account.{AppUser, sync_current_user, build_auth_sync_payload, primary_email}
use startup.Access.{CurrentAccount, user_to_verify, begin_effect, shown_with}
use startup.Access.Verify.{
  token, Messages, Answer, verdict_of, has_admin_role, judge, judge_sync, verify_admin, end_effect,
  Page, change_account, settle_effect, changed, settled, Reach, opened, later,
}
use startup.Access.Safety.{IsAdmin, shown-IsAdmin}

abbrev platform : Platform
platform = record {
  env = record {
    api_url = none;
    app_url = none;
    converter_url = none;
    clerk_publishable_key = none;
    demo_api_key = none;
    node_env = none;
    next_phase = none;
  };
  parse_url = λ url. none;
  parse_json = λ s. some (obj (member (codes "role") (str (codes "admin")) end));
  number_text = λ n. codes "7";
  stringify = λ j. codes "{}";
}

abbrev network : ℕ → Fetched
network n =
    response (record { status = 200; content_type = none; request_id = none; body = codes "x" })
      whole

abbrev entropy : Entropy
entropy = record { uuid = none; now = codes "lx2"; random = codes "0.8f3k" }

abbrev messages : Messages
messages = record {
  missing_token = codes "Missing session token.";
  syntax_error = codes "Unexpected token";
}

abbrev ada : AppUser
ada = record {
  id = codes "u1";
  first_name = none;
  last_name = none;
  username = none;
  full_name = none;
  image_url = none;
  email_addresses = codes "ada@example.org" ∷ [];
}

abbrev nobody : CurrentAccount
nobody = record { is_loaded = false; is_auth_configured = true; is_signed_in = false; user = none }

abbrev account : CurrentAccount
account = record {
  is_loaded = true;
  is_auth_configured = true;
  is_signed_in = true;
  user = some ada;
}

-- The answer to the effect of the admin, and one to the effect before it, which had no account.
abbrev answer : Answer
answer = record {
  effect = 1;
  reply = token (some (codes "jwt"));
  network = network;
  entropy = entropy;
}

abbrev late : Answer
late = record { effect = 0; reply = token none; network = network; entropy = entropy }

abbrev entered : (p : Page) × Reach messages platform (late ∷ answer ∷ []) p
entered =
    (_, later (later (later (opened nobody) (changed account)) (settled answer)) (settled late))

shown-IsAdmin_example :
    (a : Answer) × Memᴰ a (late ∷ answer ∷ []) × IsAdmin messages platform account 1 (codes "jwt") a
unfolding codes shown_with settle_effect change_account user_to_verify end_effect verdict_of
    verify_admin truthy judge_sync sync_current_user build_auth_sync_payload primary_email judge
    post_json request_with_retry round fetch_with_timeout should_skip_build_time_fetch
    has_admin_role begin_effect parse_response_body request catch_fetch round_with_data includes
    starts_with text_eq is_set_to as_text get lookup_member
shown-IsAdmin_example =
    shown-IsAdmin messages platform (late ∷ answer ∷ []) entered.0 (codes "jwt") entered.1 refl
