-- ===== src/Env.antt =====
-- apps/web/src/lib/env.ts. The environment variables are a record; `new URL`, which a browser
-- implements, is a parameter.
use startup.Common.{
  ◌-◌, Bool, false, not, ◌&&◌, ◌||◌, Option, none, some, [], ◌++◌, ltb, if◌then◌else◌, ◌or_else◌,
  length, take, Text, codes, is_blank, text_eq, trim, ends_with,
}

pub record Url : Type 0 where
  pub href : Text
  pub protocol : Text
  pub hostname : Text

-- `process.env`, the variables that the file reads.
pub record Variables : Type 0 where
  pub api_url : Option Text
  pub app_url : Option Text
  pub converter_url : Option Text
  pub clerk_publishable_key : Option Text
  pub demo_api_key : Option Text
  pub node_env : Option Text
  pub next_phase : Option Text

-- `process.env.X === "value"`
unfoldable pub is_set_to : Text → Option Text → Bool
is_set_to value none = false
is_set_to value (some s) = text_eq s value

unfoldable pub local_api_url : Text
local_api_url = codes "http://localhost:8000/v1"

unfoldable pub local_converter_url : Text
local_converter_url = codes "http://localhost:8080"

unfoldable pub prod_app_url : Text
prod_app_url = codes "https://hackmarket.io"

-- `value?.trim() || null`
unfoldable pub trimmed : Option Text → Option Text
trimmed none = none
trimmed (some s) = if is_blank (trim s) then none else some (trim s)

unfoldable pub read_public_env : Option Text → Text → Text
unfolding trimmed
read_public_env value fallback = trimmed value or_else fallback

unfoldable pub api_base : Variables → Text
api_base env = read_public_env env.api_url local_api_url

unfoldable pub app_url_of : Variables → Text
app_url_of env = read_public_env env.app_url prod_app_url

unfoldable pub converter_url_of : Variables → Text
converter_url_of env = read_public_env env.converter_url local_converter_url

unfoldable pub in_production : Variables → Bool
in_production env = is_set_to (codes "production") env.node_env

unfoldable pub converter_enabled : Variables → Bool
converter_enabled env =
    ltb 0 (length (trimmed env.converter_url or_else [])) || not (in_production env)

unfoldable pub allow_converter_catalog_fallback : Variables → Bool
allow_converter_catalog_fallback env = not (in_production env) && converter_enabled env

unfoldable pub clerk_publishable_key_of : Variables → Option Text
clerk_publishable_key_of env = trimmed env.clerk_publishable_key

unfoldable pub demo_api_key_of : Variables → Text
demo_api_key_of env = if not (in_production env) then (trimmed env.demo_api_key or_else []) else []

unfoldable pub gateway_base_url : Variables → Text
gateway_base_url env =
    if ends_with (codes "/v1") (api_base env)
    then take (length (api_base env) - 3) (api_base env) ++ codes "/api/v1"
    else api_base env ++ codes "/api/v1"

module _ (parse_url : Text → Option Url) where
  is_local_host : Option Url → Bool
  is_local_host none = false
  is_local_host (some url) =
      text_eq url.hostname (codes "localhost")
      || text_eq url.hostname (codes "127.0.0.1")
      || text_eq url.hostname (codes "::1")

  unfoldable pub is_local_service_url : Text → Bool
  unfolding is_local_host
  is_local_service_url value = is_local_host (parse_url value)

  unfoldable pub should_skip_build_time_fetch : Variables → Text → Bool
  should_skip_build_time_fetch env value =
      is_set_to (codes "phase-production-build") env.next_phase && is_local_service_url value
