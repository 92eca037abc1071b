-- ===== src/Account/Tests.antt =====
-- The synchronisation of an account at a concrete user.
use startup.Common.{◌≡◌, ◌⊎◌, none, some, [], ◌∷◌, codes, truthy}
use startup.Env.{Variables}
use startup.Api.Transport.{Platform, failed}
use startup.Api.Request.{Entropy}
use startup.Account.{AppUser, primary_email, sync_current_user}
use startup.Account.Laws.{WasSynced, sync_current_user_lem}

abbrev variables : Variables
variables = record {
  api_url = none;
  app_url = none;
  converter_url = none;
  clerk_publishable_key = none;
  demo_api_key = none;
  node_env = none;
  next_phase = none;
}

abbrev platform : Platform
platform = record {
  env = variables;
  parse_url = λ url. none;
  parse_json = λ s. none;
  number_text = λ n. codes "7";
  stringify = λ j. codes "{}";
}

abbrev entropy : Entropy
entropy = record { uuid = none; now = codes "lx2"; random = codes "0.8f3k" }

abbrev ada : AppUser
ada = record {
  id = codes "u1";
  first_name = none;
  last_name = none;
  username = none;
  full_name = none;
  image_url = none;
  email_addresses = codes "ada@example.org" ∷ [];
}

sync_current_user_lem_example :
    (((truthy (some (codes "jwt")) ≡ none) ⊎ (primary_email ada ≡ none))
      × (sync_current_user platform (λ n. failed) entropy ada (some (codes "jwt")) ≡ none))
    ⊎ WasSynced platform (λ n. failed) entropy ada (some (codes "jwt"))
sync_current_user_lem_example =
    sync_current_user_lem platform (λ n. failed) entropy ada (some (codes "jwt"))
