-- ===== src/Api/Request.antt =====
-- `createRequestId`, `request`, `requestFormData`, the `api` object and `buildQuery` of
-- apps/web/src/lib/api.ts.
use startup.Common.{
  truthy, ℕ, suc, Bool, true, false, not, ◌&&◌, Option, none, some, List, [], ◌∷◌, ◌++◌,
  if◌then◌else◌, ◌or_else◌, is_some, take, drop, Text, codes, is_blank, text_eq, remove_char,
}
use startup.Json.{Json, null, str, to_text}
use startup.Api.Transport.{
  Body, json_text, form_data, RequestInit, Fetched, Effect, Outcome, Platform, default_timeout_ms,
  request_with_retry, max_retries,
}

pub record RequestOptions : Type 0 where
  pub token : Option Text
  pub cache : Option Text
  pub next : Option Json
  pub timeout_ms : Option ℕ
  pub request_id : Option Text

-- The random values that `createRequestId` draws: the UUID where the platform makes one, and the
-- time and a random number in base 36.
pub record Entropy : Type 0 where
  pub uuid : Option Text
  pub now : Text
  pub random : Text

unfoldable pub create_request_id : Entropy → Text
create_request_id entropy = elim entropy.uuid [
  | some uuid ↦ codes "web_" ++ remove_char b'-' uuid
  | none ↦ codes "web_" ++ (entropy.now ++ (codes "_" ++ take 8 (drop 2 entropy.random)))
]

unfoldable pub request_id_header : Text
request_id_header = codes "X-HackMarket-Request-Id"

-- The headers stand in the order in which they are set; each name is set once.
pub optional_header : Text → Text → Option Text → List (Text × Text)
optional_header name prefix none = []
optional_header name prefix (some s) = (name, prefix ++ s) ∷ []

-- The request ID of `request`: none for a public request that Next caches.
unfoldable pub chosen_request_id : Entropy → RequestOptions → Option Text
chosen_request_id entropy options = elim options.request_id [
  | some id ↦ some id
  | none ↦
      if is_some options.next && not (is_some (truthy options.token))
      then none
      else some (create_request_id entropy)
]

pub content_type_header : Option Json → List (Text × Text)
content_type_header none = []
content_type_header (some body) = (codes "Content-Type", codes "application/json") ∷ []

pub authorization_header : RequestOptions → List (Text × Text)
unfolding optional_header
authorization_header options =
    optional_header (codes "Authorization") (codes "Bearer ") (truthy options.token)

unfoldable pub request_headers : Entropy → Option Json → RequestOptions → List (Text × Text)
unfolding optional_header content_type_header authorization_header
request_headers entropy body options =
    optional_header request_id_header [] (truthy (chosen_request_id entropy options))
    ++ (content_type_header body ++ authorization_header options)

pub json_body : (Json → Text) → Option Json → Option Body
json_body stringify none = none
json_body stringify (some body) = some (json_text (stringify body))

-- Three rounds of fuel: the first and two more.
module _ (js : Platform) (network : ℕ → Fetched) (entropy : Entropy) where
  send : Text → Text → RequestInit → RequestOptions → Option Outcome × List Effect
  send method path init options =
      request_with_retry js network method path init (options.timeout_ms or_else default_timeout_ms)
        (suc max_retries) 0

  unfoldable pub request : Text → Text → Option Json → RequestOptions → Option Outcome × List Effect
  unfolding send json_body
  request method path body options =
      send method path
        (record {
          method = method;
          headers = request_headers entropy body options;
          body = json_body js.stringify body;
          cache = options.cache;
          next = options.next;
        })
        options

  unfoldable pub request_form_data :
      Text → Text → Text → RequestOptions → Option Outcome × List Effect
  unfolding send authorization_header
  request_form_data method path body options =
      send method path
        (record {
          method = method;
          headers =
              (request_id_header, options.request_id or_else create_request_id entropy)
              ∷ authorization_header options;
          body = some (form_data body);
          cache = options.cache;
          next = options.next;
        })
        options

  unfoldable pub get_json : Text → RequestOptions → Option Outcome × List Effect
  unfolding request
  get_json path options = request (codes "GET") path none options

  unfoldable pub post_json : Text → Json → RequestOptions → Option Outcome × List Effect
  unfolding request
  post_json path body options = request (codes "POST") path (some body) options

  unfoldable pub post_form_data : Text → Text → RequestOptions → Option Outcome × List Effect
  unfolding request_form_data
  post_form_data path body options = request_form_data (codes "POST") path body options

  unfoldable pub put_json : Text → Json → RequestOptions → Option Outcome × List Effect
  unfolding request
  put_json path body options = request (codes "PUT") path (some body) options

  unfoldable pub patch_json : Text → Json → RequestOptions → Option Outcome × List Effect
  unfolding request
  patch_json path body options = request (codes "PATCH") path (some body) options

  unfoldable pub delete_json : Text → RequestOptions → Option Outcome × List Effect
  unfolding request
  delete_json path options = request (codes "DELETE") path none options

-- `URLSearchParams.set`.
unfoldable pub set_param : Text → Text → List (Text × Text) → List (Text × Text)
set_param key value [] = (key, value) ∷ []
set_param key value ((k, v) ∷ rest) =
    if text_eq k key then (k, value) ∷ rest else (k, v) ∷ set_param key value rest

-- `undefined`, `null` and the empty text are left out.
unfoldable pub is_given : Option Json → Bool
is_given none = false
is_given (some null) = false
is_given (some (str s)) = not (is_blank s)
is_given (some _) = true

unfoldable pub param_text : (ℕ → Text) → Option Json → Text
param_text number none = codes "undefined"
param_text number (some value) = to_text number value

unfoldable pub query_params :
    (ℕ → Text) → List (Text × Option Json) → List (Text × Text) → List (Text × Text)
unfolding param_text
query_params number [] qs = qs
query_params number ((key, val) ∷ rest) qs =
    query_params number rest (if is_given val then set_param key (param_text number val) qs else qs)

-- `URLSearchParams.toString`, the percent encoding, is a parameter.
unfoldable pub build_query :
    (List (Text × Text) → Text) → (ℕ → Text) → List (Text × Option Json) → Text
build_query encode number params =
    let encoded = encode (query_params number params []) in
    if is_blank encoded then [] else codes "?" ++ encoded
