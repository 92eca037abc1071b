-- ===== src/Demo/Reply.antt =====
-- How an answer is read, and the message that is shown for a refused one.
use startup.Common.{
  ℕ, Bool, not, ◌||◌, Option, none, some, [], ◌∷◌, ◌++◌, if◌then◌else◌, ◌or_else◌, ltb, ◌==◌, Text,
  codes, is_blank, trim, trim_start, is_space, includes,
}
use startup.Json.{Json, str, arr, obj, cons, end, member, get}
use startup.Api.Errors.{Response, nullable_text}
use startup.SafeUrl.{after_prefix}
use startup.Demo.{Browser}

-- `[^\s<]+` from the beginning.
word_start : Text → Text
word_start [] = []
word_start (c ∷ s) = let rest = word_start s in if is_space c || c == b'<' then [] else c ∷ rest

filled_word : Text → Option Text
filled_word [] = none
filled_word (c ∷ s) = some (c ∷ s)

-- The first match of `/Request ID:\s*([^\s<]+)/i`, its group.
id_here : Option Text → Option Text
unfolding word_start filled_word
id_here none = none
id_here (some rest) = filled_word (word_start (trim_start rest))

unfoldable pub request_id_in : Text → Option Text
unfolding id_here
request_id_in [] = none
request_id_in (c ∷ s) =
    let later = request_id_in s in
    elim (id_here (after_prefix (codes "request id:") (c ∷ s))) [ some id ↦ some id | none ↦ later ]

unfoldable pub looks_like_gateway_page : Text → Bool
looks_like_gateway_page normalized =
    includes (codes "bad gateway") normalized
    || includes (codes ">502<") normalized
    || includes (codes "service is currently unavailable") normalized

platform_of : Text → Option Text
platform_of normalized =
    if includes (codes "powered by render") normalized
    then some (codes "Render")
    else if includes (codes "powered by vercel") normalized
    then some (codes "Vercel")
    else none

unfoldable pub gateway_message : ℕ → Text
gateway_message status =
    if status == 504
    then codes "The service took too long to respond. Please try again in a minute."
    else codes
        "The service is temporarily unavailable and may be redeploying. Please try again in a minute."

unfoldable pub gateway_error : Text → Text → ℕ → Json
unfolding platform_of
gateway_error body normalized status = obj (
    member (codes "error")
      (obj (
        member (codes "code")
          (str (if status == 504 then codes "TOOL_TIMEOUT" else codes "TOOL_UNAVAILABLE"))
          (member (codes "message") (str (gateway_message status)) (
            member (codes "platform") (nullable_text (platform_of normalized))
              (member (codes "requestId") (nullable_text (request_id_in body)) end)))))
      end)

-- A text that is not blank when trimmed.
unfoldable pub proper_text : Option Json → Option Text
proper_text (some (str s)) = if is_blank (trim s) then none else some s
proper_text _ = none

-- `payload.details[0]?.message`
first_detail : Option Json → Option Json
first_detail (some (arr (cons detail rest))) = get (codes "message") detail
first_detail _ = none

-- `String(payload.error.message ?? "")` where it is a text.
error_message : Option Json → Option Text
error_message (some (str s)) = some s
error_message _ = none

error_message_of : Option Json → Option Text
unfolding error_message
error_message_of none = none
error_message_of (some error) = error_message (get (codes "message") error)

abbrev orelse {ℓ} : {A : Type ℓ} → Option A → Option A → Option A
orelse none b = b
orelse (some a) b = some a

unfoldable pub stated_message : Json → Option Text
unfolding first_detail error_message_of
stated_message data_ = orelse (proper_text (get (codes "message") data_)) (
    orelse (proper_text (first_detail (get (codes "details") data_)))
      (error_message_of (get (codes "error") data_)))

module _ (js : Browser) where
  unfoldable pub extract_error_message : Json → ℕ → Text
  extract_error_message data_ status =
      stated_message data_
      or_else (codes "The demo request failed with status " ++ (js.number_text status ++ codes "."))

  unfoldable pub normalize_gateway_error_page : Text → ℕ → Text → Option Json
  normalize_gateway_error_page body status content_type =
      if not (includes (codes "text/html") content_type) || ltb status 500
      then none
      else if not (looks_like_gateway_page (js.to_lower body))
      then none
      else some (gateway_error body (js.to_lower body) status)

  -- `none`: the body is declared as JSON and is none.
  unfoldable pub parse_response : Response → Option Json
  parse_response res =
      let content_type = res.content_type or_else [] in
      if includes (codes "application/json") content_type
      then js.parse_json res.body
      else some (normalize_gateway_error_page res.body res.status content_type or_else str res.body)
