-- ===== src/ErrorDisplay/Tests.antt =====
-- The display of errors at concrete inputs.
use startup.Common.{◌≡◌, refl, none, some, codes, inl, text_eq}
use startup.Json.{str, null, obj, end}
use startup.Env.{Variables, in_production, is_set_to}
use startup.Api.Errors.{ApiError}
use startup.ErrorDisplay.{api, Fallbacks, is_server_error, to_public_error_display}
use startup.ErrorDisplay.Laws.{to_public_error_display_lem}
use Prim.Native.String.{String}

abbrev production : Variables
production = record {
  api_url = none;
  app_url = none;
  converter_url = none;
  clerk_publishable_key = none;
  demo_api_key = none;
  node_env = some (codes "production");
  next_phase = none;
}

abbrev crash : String → ApiError
crash message = record {
  status = 500;
  code = str (codes "UPSTREAM_ERROR");
  message = codes message;
  details = obj end;
  request_id = null;
}

abbrev options : Fallbacks
options = record { title = none; message = none }

to_public_error_display_lem_example :
    to_public_error_display production
      (api (codes "ApiError") (crash "table users is missing"))
      options
    ≡ to_public_error_display production (api (codes "ApiError") (crash "disk is full")) options
unfolding in_production is_set_to codes is_server_error text_eq
to_public_error_display_lem_example =
    to_public_error_display_lem production options
      (api (codes "ApiError") (crash "table users is missing"))
      (api (codes "ApiError") (crash "disk is full")) refl (refl, refl, refl, inl refl)
