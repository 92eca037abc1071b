-- ===== src/ErrorDisplay.antt =====
-- apps/web/src/lib/error-display.ts.
pub mod Laws
mod Tests
use startup.Common.{
  ℕ, Bool, true, false, ◌||◌, Option, none, some, ◌++◌, leb, ◌==◌, if◌then◌else◌, ◌or_else◌, Text,
  codes, is_blank, trim, truthy,
}
use startup.Json.{Json, str, present}
use startup.Env.{Variables, in_production}
use startup.Api.Errors.{ApiError}

-- What may be thrown: an `ApiError`, another `Error`, an object, a text, or anything else. A property
-- `digest` of an error or of an object is there with its value, or is missing.
pub data Thrown : Type 0 where
  api : (name : Text) → ApiError → Thrown
  error : (name message : Text) (digest : Option Json) → Thrown
  object : (digest : Option Json) → Thrown
  string : Text → Thrown
  other : Thrown

pub record PublicErrorDisplay : Type 0 where
  pub title : Text
  pub message : Text
  pub code : Option Json
  pub request_id : Option Json
  pub status : Option ℕ
  pub dev_details : Option Text

pub record Fallbacks : Type 0 where
  pub title : Option Text
  pub message : Option Text

unfoldable pub get_error_message : Thrown → Option Text
get_error_message (api name e) = truthy (some e.message)
get_error_message (error name message digest) = truthy (some message)
get_error_message (object digest) = none
get_error_message (string s) = if is_blank (trim s) then none else some s
get_error_message other = none

-- `${error.name}: ${error.message || "(no message)"}`
unfoldable pub error_line : Text → Text → Text
error_line name message =
    name ++ (codes ": " ++ (truthy (some message) or_else codes "(no message)"))

described : Thrown → Option Text
described (api name e) = some (error_line name e.message)
described (error name message digest) = some (error_line name message)
described (object digest) = none
described (string s) = some s
described other = none

unfoldable pub get_dev_details : Variables → Thrown → Option Text
unfolding described
get_dev_details env thrown = if in_production env then none else described thrown

filled_text : Option Json → Option Json
filled_text (some (str s)) = if is_blank s then none else some (str s)
filled_text _ = none

-- Only an error that is no `ApiError` is asked for its digest.
unfoldable pub get_digest : Thrown → Option Json
unfolding filled_text
get_digest (api name e) = none
get_digest (error name message digest) = filled_text digest
get_digest (object digest) = filled_text digest
get_digest (string s) = none
get_digest other = none

unfoldable pub is_server_error : ApiError → Bool
is_server_error e = leb 500 e.status || e.status == 0

unfoldable pub api_display : Variables → Fallbacks → Text → ApiError → PublicErrorDisplay
api_display env options name e = record {
  title =
      options.title
      or_else (if is_server_error e
          then codes "Service temporarily unavailable"
          else codes "Request could not be completed");
  message =
      if is_server_error e
      then (options.message
          or_else codes "The live service did not respond cleanly. Please retry in a moment.")
      else e.message;
  code = some e.code;
  request_id = present (some e.request_id);
  status = some e.status;
  dev_details = get_dev_details env (api name e);
}

unfoldable pub other_display : Variables → Fallbacks → Thrown → PublicErrorDisplay
other_display env options thrown = record {
  title = options.title or_else codes "We hit a snag loading this screen";
  message =
      if in_production env
      then (options.message
          or_else codes "Please try again. If it keeps happening, include the support ID below.")
      else (get_error_message thrown
          or_else (options.message or_else codes "Something went wrong."));
  code = none;
  request_id = get_digest thrown;
  status = none;
  dev_details = get_dev_details env thrown;
}

-- `error instanceof ApiError`
abbrev pub as_api_error : Thrown → Option (Text × ApiError)
as_api_error (api name e) = some (name, e)
as_api_error _ = none

unfoldable pub to_public_error_display : Variables → Thrown → Fallbacks → PublicErrorDisplay
to_public_error_display env thrown options = elim (as_api_error thrown) [
  | some (name, e) ↦ api_display env options name e
  | none ↦ other_display env options thrown
]
