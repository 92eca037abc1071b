-- ===== src/Api/Errors.antt =====
-- Responses and errors of apps/web/src/lib/api.ts. `JSON.parse` and the decimal text of a number
-- are parameters.
use startup.Common.{
  ℕ, Bool, ◌&&◌, Option, none, some, [], ltb, leb, if◌then◌else◌, ◌or_else◌, take, Text, codes,
  is_blank, includes,
}
use startup.Json.{Json, null, str, obj, end, member, get, coalesce, present, to_text, lookup_member}

-- What the code reads of a `Response`; the body is the text that reading all of it gives.
pub record Response : Type 0 where
  pub status : ℕ
  pub content_type : Option Text
  pub request_id : Option Text
  pub body : Text

-- `res.ok`
abbrev pub is_ok : Response → Bool
is_ok res = leb 200 res.status && ltb res.status 300

pub record ApiError : Type 0 where
  pub status : ℕ
  pub code : Json
  pub message : Text
  pub details : Json
  pub request_id : Json

-- The object of the catch block around `JSON.parse`.
abbrev pub raw_body : Text → Json
raw_body body = obj (member (codes "raw") (str (take 500 body)) end)

abbrev pub nullable_text : Option Text → Json
nullable_text none = null
nullable_text (some s) = str s

-- How the reading of a body goes, which the timeout of the headers does not bound: it gets the whole of
-- it, is rejected with a message, or never ends.
pub data BodyRead : Type 0 where
  whole : BodyRead
  cut_off : Text → BodyRead
  stalled : BodyRead

-- What becomes of the promise of `parseResponseBody`: it is fulfilled, rejected with a `SyntaxError`,
-- which only a body declared as JSON can do, rejected with the message of the reading, or pending for
-- ever.
pub data Parsed : Type 0 where
  parsed : Json → Parsed
  no_json unending : Parsed
  rejected : Text → Parsed

abbrev pub as_parsed : Option Json → Parsed
as_parsed none = no_json
as_parsed (some data_) = parsed data_

module _ (parse_json : Text → Option Json) where
  unfoldable pub parse_text : Response → Parsed
  parse_text res =
      if includes (codes "application/json") (res.content_type or_else [])
      then as_parsed (parse_json res.body)
      else if is_blank res.body
      then parsed null
      else parsed (parse_json res.body or_else raw_body res.body)

  unfoldable pub parse_response_body : Response → BodyRead → Parsed
  unfolding parse_text
  parse_response_body res whole = parse_text res
  parse_response_body res (cut_off message) = rejected message
  parse_response_body res stalled = unending

-- `"raw" in data ? String(data.raw) : null`, null for what is no object.
unfoldable pub raw_text : (ℕ → Text) → Json → Option Text
raw_text number (obj members) = elim (lookup_member (codes "raw") members) [
  | none ↦ none
  | some value ↦ some (to_text number value)
]
raw_text number _ = none

-- `err?.name`
unfoldable pub error_field : Text → Json → Option Json
error_field name data_ = elim (present (get (codes "error") data_)) [
  | none ↦ none
  | some err ↦ get name err
]

unfoldable pub to_api_error : (ℕ → Text) → Response → Json → ApiError
to_api_error number res data_ = record {
  status = res.status;
  code =
      coalesce (error_field (codes "code") data_)
        (str (if leb 500 res.status then codes "UPSTREAM_ERROR" else codes "UNKNOWN_ERROR"));
  message = to_text number (
      coalesce (error_field (codes "message") data_)
        (str (raw_text number data_ or_else codes "Request failed")));
  details = coalesce (error_field (codes "details") data_) (obj end);
  request_id = coalesce (error_field (codes "request_id") data_) (nullable_text res.request_id);
}
