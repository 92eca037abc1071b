-- ===== src/Api/Transport.antt =====
-- `fetchWithTimeout` and `requestWithRetry` of apps/web/src/lib/api.ts. The network is a parameter:
-- what comes of the n-th call of `fetch` that a request makes. Effects are listed in their order.
use startup.Common.{
  ℕ, zero, suc, ◌+◌, ◌*◌, Bool, not, ◌&&◌, ◌||◌, Option, none, some, List, [], ◌∷◌, ◌++◌, ltb, ◌==◌,
  if◌then◌else◌, Text, codes, text_eq,
}
use startup.Json.{Json, null, str, obj, end}
use startup.Env.{Url, Variables, api_base, should_skip_build_time_fetch}
use startup.Api.Errors.{
  Response, ApiError, is_ok, BodyRead, Parsed, parsed, no_json, unending, rejected,
  parse_response_body, to_api_error,
}

pub data Body : Type 0 where
  json_text form_data : Text → Body

pub record RequestInit : Type 0 where
  pub method : Text
  pub headers : List (Text × Text)
  pub body : Option Body
  pub cache : Option Text
  pub next : Option Json

-- How a call of `fetch` ends: with a response, whose body is yet to be read, by the abort of the
-- timeout, or with another error.
pub data Fetched : Type 0 where
  response : Response → BodyRead → Fetched
  aborted failed : Fetched

pub data Effect : Type 0 where
  fetched : (input : Text) (init : RequestInit) (timeout_ms : ℕ) → Effect
  slept : (ms : ℕ) → Effect

-- How a request ends: with data, with `undefined` after a 204, or with an exception, which may be that
-- of a body that is no JSON or cannot be read; or it waits for its body for ever.
pub data Outcome : Type 0 where
  value : Json → Outcome
  no_content syntax_error waiting : Outcome
  read_error : Text → Outcome
  api_error : ApiError → Outcome

abbrev pub client_error : ℕ → Text → Text → ApiError
client_error status code message = record {
  status = status;
  code = str code;
  message = message;
  details = obj end;
  request_id = null;
}

unfoldable pub request_timeout : ApiError
request_timeout =
    client_error 504 (codes "REQUEST_TIMEOUT") (codes "The request took too long to complete.")

unfoldable pub network_error : ApiError
network_error =
    client_error 0 (codes "NETWORK_ERROR")
      (codes "We could not reach the server. Please try again.")

unfoldable pub local_service_unavailable : ApiError
local_service_unavailable =
    client_error 0 (codes "LOCAL_SERVICE_UNAVAILABLE")
      (codes "Skipping local service fetch during production build.")

abbrev pub default_timeout_ms : ℕ
default_timeout_ms = 20000

abbrev pub max_retries : ℕ
max_retries = 2

abbrev pub retry_delay_ms : ℕ
retry_delay_ms = 500

-- `RETRYABLE_STATUS_CODES`
unfoldable pub is_retryable_status : ℕ → Bool
is_retryable_status status = status == 502 || status == 503 || status == 504

unfoldable pub is_read_method : Text → Bool
is_read_method method = text_eq method (codes "GET") || text_eq method (codes "HEAD")

-- What the platform provides.
pub record Platform : Type 0 where
  pub env : Variables
  pub parse_url : Text → Option Url
  pub parse_json : Text → Option Json
  pub number_text : ℕ → Text
  pub stringify : Json → Text

-- What `fetchWithTimeout` returns or throws.
pub data Fetch : Type 0 where
  got : Response → BodyRead → Fetch
  threw : ApiError → Fetch

-- What one round of `requestWithRetry` does behind the call of `fetchWithTimeout`: it ends the
-- request, or leaves it pending, or it sleeps and goes on to the next round.
pub data Round : Type 0 where
  done : Outcome → Round
  again : (delay_ms : ℕ) → Round

module _ (js : Platform) (network : ℕ → Fetched) where
  -- The catch block.
  unfoldable pub catch_fetch : Fetched → Fetch
  catch_fetch (response res read) = got res read
  catch_fetch aborted = threw request_timeout
  catch_fetch failed = threw network_error

  unfoldable pub fetch_with_timeout : Text → RequestInit → ℕ → ℕ → Fetch × List Effect
  unfolding catch_fetch
  fetch_with_timeout input init timeout_ms attempt =
      if should_skip_build_time_fetch js.parse_url js.env input
      then (threw local_service_unavailable, [])
      else (catch_fetch (network attempt), fetched input init timeout_ms ∷ [])

  unfoldable pub round_with_data : Text → ℕ → Response → Parsed → Round
  round_with_data method attempt res no_json = done syntax_error
  round_with_data method attempt res (rejected message) = done (read_error message)
  round_with_data method attempt res unending = done waiting
  round_with_data method attempt res (parsed body) =
      if not (is_ok res)
      then if ltb attempt max_retries && (is_retryable_status res.status && is_read_method method)
        then again (retry_delay_ms * (attempt + 1))
        else done (api_error (to_api_error js.number_text res body))
      else done (value body)

  unfoldable pub round : Text → ℕ → Fetch → Round
  unfolding round_with_data
  round method attempt (threw e) = done (api_error e)
  round method attempt (got res read) =
      if res.status == 204
      then done no_content
      else round_with_data method attempt res (parse_response_body js.parse_json res read)

  -- The recursion on `attempt`, with fuel; `none` means that the fuel ran out.
  unfoldable pub request_with_retry :
      Text → Text → RequestInit → ℕ → ℕ → ℕ → Option Outcome × List Effect
  request_with_retry method path init timeout_ms zero attempt = (none, [])
  request_with_retry method path init timeout_ms (suc fuel) attempt =
      let (reply, effects) = fetch_with_timeout (api_base js.env ++ path) init timeout_ms attempt in
      elim (round method attempt reply) [
        | done outcome ↦ (some outcome, effects)
        | again delay_ms ↦
            let (outcome, later) =
              request_with_retry method path init timeout_ms fuel (attempt + 1) in
            (outcome, effects ++ slept delay_ms ∷ later)
      ]
