-- ===== src/Demo/ReplyLaws.antt =====
-- The message that a visitor sees for a page of the gateway.
use startup.Common.{
  ℕ, ◌≡◌, refl, true, false, some, [], arith, leb, ◌or_else◌, Text, codes, includes, text_eq,
}
use startup.Json.{Json, get, lookup_member}
use startup.Api.Errors.{Response}
use startup.Demo.{Browser}
use startup.Demo.Reply.{
  looks_like_gateway_page, gateway_message, gateway_error, stated_message, proper_text,
  extract_error_message, normalize_gateway_error_page, parse_response,
}

abbrev pub content_type_of : Response → Text
content_type_of res = res.content_type or_else []

stated-gateway_error :
    (body normalized : Text) (status : ℕ)
    → stated_message (gateway_error body normalized status) ≡ some (gateway_message status)
unfolding stated_message gateway_error proper_text get lookup_member text_eq codes
stated-gateway_error body normalized status = refl

-- An HTML page of the gateway with a status of 500 or more is read without an exception, and the
-- error message for it is one of two fixed ones, by whether the status is 504.
pub parse_response_lem :
    (js : Browser) (res : Response)
    → includes (codes "application/json") (content_type_of res) ≡ false
    → includes (codes "text/html") (content_type_of res) ≡ true
    → leb 500 res.status ≡ true
    → looks_like_gateway_page (js.to_lower res.body) ≡ true
    → (data_ : Json) × (parse_response js res ≡ some data_)
      × (extract_error_message js data_ res.status ≡ gateway_message res.status)
unfolding parse_response normalize_gateway_error_page extract_error_message
parse_response_lem js res no_json html server page = (
  gateway_error res.body (js.to_lower res.body) res.status,
  ground arith,
  rw (stated-gateway_error res.body (js.to_lower res.body) res.status) refl,
)
