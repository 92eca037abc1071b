-- ===== src/Purchase.antt =====
-- apps/web/src/components/billing/PurchaseToolButton.tsx: the purchase of a tool by a signed-in
-- account.
pub mod Laws
mod Tests
use startup.Common.{
  ℕ, Bool, true, false, not, ◌&&◌, Option, none, some, List, [], ◌++◌, ◌==◌, if◌then◌else◌, is_some,
  Text, codes, text_eq, truthy, ◌||◌, is_blank,
}
use startup.Json.{Json, null, bool, num, str, get, as_text, to_text}
use startup.Env.{Url}
use startup.Api.Transport.{
  Platform, Fetched, Effect, Outcome, value, no_content, api_error, syntax_error, read_error,
  waiting,
}
use startup.Api.Request.{Entropy, RequestOptions, request}
use startup.Access.Verify.{TokenReply, token, no_token}

pub data Status : Type 0 where
  idle saving saved error : Status

-- The `useState` variables, and where the window was sent, if it was.
pub record Button : Type 0 where
  pub status : Status
  pub message : Option Text
  pub location : Option Text

unfoldable pub is_stripe : Option Url → Bool
is_stripe none = false
is_stripe (some u) =
    text_eq u.protocol (codes "https:") && text_eq u.hostname (codes "checkout.stripe.com")

unfoldable pub is_trusted_stripe_checkout_url : (Text → Option Url) → Text → Bool
unfolding is_stripe
is_trusted_stripe_checkout_url parse_url place = is_stripe (parse_url place)

unfoldable pub begin_purchase : Button → Button
begin_purchase b = record b { status = saving; message = none }

text_at : Text → Json → Option Text
text_at name body = elim (get name body) [ none ↦ none | some v ↦ as_text v ]

-- A number that is truthy: JSON has no NaN, and the double 0 has two forms.
is_truthy_number : ℕ → Bool
is_truthy_number n = not (n == 0 || n == 0x8000000000000000)

-- The truthiness of a value.
unfoldable pub is_truthy : Json → Bool
unfolding is_truthy_number
is_truthy null = false
is_truthy (bool x) = x
is_truthy (num n) = is_truthy_number n
is_truthy (str s) = not (is_blank s)
is_truthy _ = true

-- `purchase.checkout_url`, if it is truthy: `new URL` and `location.assign` take its text.
unfoldable pub checkout_url_of : (ℕ → Text) → Json → Option Text
unfolding is_truthy
checkout_url_of number body = elim (get (codes "checkout_url") body) [
  | none ↦ none
  | some v ↦ if is_truthy v then some (to_text number v) else none
]

unfoldable pub is_pending : Json → Bool
unfolding text_at
is_pending body = elim (text_at (codes "status") body) [
  | none ↦ false
  | some status ↦ text_eq status (codes "pending")
]

unfoldable pub fail : Text → Button → Button
fail message b = record b { status = error; message = some message }

-- The answer is a purchase.
unfoldable pub take_purchase : (Text → Option Url) → (ℕ → Text) → Json → Button → Button
take_purchase parse_url number body b = elim (checkout_url_of number body) [
  | some url ↦
      if not (is_trusted_stripe_checkout_url parse_url url)
      then fail (codes "Checkout could not be opened safely. Please contact support.") b
      else record b { location = some url }
  | none ↦
      if is_pending body
      then fail (codes "Checkout is already pending. Refresh and try again if Stripe did not open.")
          b
      else record b { status = saved; message = some (codes "Added to your buyer dashboard.") }
]

unfoldable pub not_yet : Button → Button
not_yet = fail (codes "Could not add this tool yet. Try again in a moment.")

-- A body of `null`, and none at all, have no `checkout_url`: reading it throws. While the request
-- waits, the button stays as it is.
unfoldable pub take_outcome : (Text → Option Url) → (ℕ → Text) → Option Outcome → Button → Button
take_outcome parse_url number none b = not_yet b
take_outcome parse_url number (some (value null)) b = not_yet b
take_outcome parse_url number (some (value body)) b = take_purchase parse_url number body b
take_outcome parse_url number (some no_content) b = not_yet b
take_outcome parse_url number (some syntax_error) b = not_yet b
take_outcome parse_url number (some (read_error message)) b = not_yet b
take_outcome parse_url number (some waiting) b = b
take_outcome parse_url number (some (api_error e)) b =
    if e.status == 403 then fail (codes "You cannot add your own seller tool.") b else not_yet b

abbrev pub with_token : Option Text → RequestOptions
with_token given = record {
  token = given;
  cache = none;
  next = none;
  timeout_ms = none;
  request_id = none;
}

unfoldable pub purchase_request :
    Platform → (ℕ → Fetched) → Entropy → Text → Option Text → Option Outcome × List Effect
purchase_request js network entropy tool_id given =
    request js network entropy (codes "POST")
      (codes "/billing/tools/" ++ (tool_id ++ codes "/purchase")) none (with_token given)

-- `purchaseTool`: the button when it ends, and what was sent.
unfoldable pub purchase_tool :
    Platform → (ℕ → Fetched) → Entropy → Text → TokenReply → Button → Button × List Effect
purchase_tool js network entropy tool_id (no_token message) b = (not_yet (begin_purchase b), [])
purchase_tool js network entropy tool_id (token given) b =
    let (outcome, effects) = purchase_request js network entropy tool_id given in
    (take_outcome js.parse_url js.number_text outcome (begin_purchase b), effects)
