-- ===== src/Api/Tests.antt =====
-- Runs of requests, and their theorems at concrete inputs.
use startup.Common.{
  truthy, ℕ, zero, suc, ◌≡◌, refl, false, none, some, Option, List, [], ◌∷◌, ◌++◌, if◌then◌else◌,
  is_blank, Text, codes, text_eq, includes, trim, starts_with,
}
use startup.Json.{to_text, Json, null, str, bool}
use startup.Env.{Variables, api_base, read_public_env, is_set_to, should_skip_build_time_fetch}
use startup.Api.Errors.{whole, parse_text, Response, parse_response_body}
use startup.Api.Transport.{
  Platform, Fetched, response, Effect, fetched, slept, value, RequestInit, request_with_retry,
  fetch_with_timeout, catch_fetch, round, round_with_data, is_retryable_status, is_read_method,
}
use startup.Api.Request.{
  request_form_data, Entropy, RequestOptions, request, post_json, post_form_data, put_json,
  patch_json, delete_json, is_given, set_param, query_params, chosen_request_id,
}
use startup.Api.Retry.{settled, request_with_retry_lem}
use startup.Api.Limits.{EndsWithin, request-EndsWithin, writes-EndsWithin}
use startup.Api.Headers.{
  values_under, listed, HasHeaders, request_headers_lem, last_given, query_params_lem,
}

abbrev variables : Variables
variables = record {
  api_url = some (codes " https://api.example.org/v1 ");
  app_url = none;
  converter_url = none;
  clerk_publishable_key = none;
  demo_api_key = none;
  node_env = none;
  next_phase = none;
}

abbrev platform : Platform
platform = record {
  env = variables;
  parse_url = λ url. none;
  parse_json = λ s. if is_blank s then none else some (str s);
  number_text = λ n. codes "7";
  stringify = λ j. codes "{}";
}

abbrev unavailable : Response
unavailable = record { status = 503; content_type = none; request_id = none; body = [] }

abbrev fine : Response
fine = record { status = 200; content_type = none; request_id = none; body = codes "hello" }

-- The first answer is a passing fault, all later ones are good.
abbrev flaky : ℕ → Fetched
flaky zero = response unavailable whole
flaky (suc n) = response fine whole

abbrev plain : RequestInit
plain = record { method = codes "GET"; headers = []; body = none; cache = none; next = none }

abbrev call : Effect
call = fetched (codes "https://api.example.org/v1/tools") plain 20000

get_flaky :
    request_with_retry platform flaky (codes "GET") (codes "/tools") plain 20000 3 0
    ≡ (some (value (str (codes "hello"))), call ∷ slept 500 ∷ call ∷ [])
unfolding request_with_retry fetch_with_timeout catch_fetch round round_with_data
    is_retryable_status is_read_method parse_response_body parse_text should_skip_build_time_fetch
    is_set_to api_base read_public_env codes trim text_eq includes starts_with
get_flaky = refl

request_with_retry_lem_example :
    request_with_retry platform flaky (codes "GET") (codes "/tools") plain 20000 3 0
    ≡ settled platform flaky (api_base platform.env ++ codes "/tools") plain 20000 (codes "GET")
unfolding should_skip_build_time_fetch is_set_to
request_with_retry_lem_example =
    request_with_retry_lem platform flaky (codes "GET") (codes "/tools") plain 20000 refl

abbrev entropy : Entropy
entropy = record { uuid = some (codes "12-34"); now = []; random = [] }

abbrev options : RequestOptions
options = record {
  token = some (codes "secret");
  cache = none;
  next = none;
  timeout_ms = none;
  request_id = none;
}

request-EndsWithin_example :
    EndsWithin flaky 3 1500
      (request platform flaky entropy (codes "GET") (codes "/tools") none options)
    × EndsWithin flaky 3 1500 (
        request_form_data platform flaky entropy (codes "GET") (codes "/tools") (codes "f") options)
request-EndsWithin_example =
    request-EndsWithin platform flaky entropy (codes "GET") (codes "/tools") none (codes "f")
      options

writes-EndsWithin_example :
    EndsWithin flaky 1 0 (post_json platform flaky entropy (codes "/a") null options)
    × EndsWithin flaky 1 0 (post_form_data platform flaky entropy (codes "/a") (codes "f") options)
    × EndsWithin flaky 1 0 (put_json platform flaky entropy (codes "/a") null options)
    × EndsWithin flaky 1 0 (patch_json platform flaky entropy (codes "/a") null options)
    × EndsWithin flaky 1 0 (delete_json platform flaky entropy (codes "/a") options)
writes-EndsWithin_example =
    writes-EndsWithin platform flaky entropy (codes "/a") null (codes "f") options

request_headers_lem_example :
    HasHeaders entropy options
      (some null)
      (truthy options.token)
      (truthy (chosen_request_id entropy options))
request_headers_lem_example = request_headers_lem entropy options (some null)

abbrev params : List (Text × Option Json)
params =
    (codes "page", some (str (codes "2")))
    ∷ (codes "q", some (str []))
    ∷ (codes "sort", none)
    ∷ (codes "all", some (bool false))
    ∷ []

query_params_run :
    query_params (λ n. codes "7") params []
    ≡ (codes "page", codes "2") ∷ (codes "all", codes "false") ∷ []
unfolding query_params is_given set_param to_text codes text_eq
query_params_run = refl

query_params_lem_example :
    values_under (codes "page") (query_params (λ n. codes "7") params [])
    ≡ listed (last_given (λ n. codes "7") (codes "page") params none)
query_params_lem_example = query_params_lem (λ n. codes "7") (codes "page") params
