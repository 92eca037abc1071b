-- ===== src/Purchase/Laws.antt =====
-- How a purchase ends.
use startup.Common.{
  ◌++◌, ◌==◌, ℕ, ◌≤◌, ◌≡◌, ◌⊎◌, refl, true, Option, none, some, is_some, arith, Bool-cases,
  Option-cases, inl, inr, Text, codes, text_eq, text_eq_iff,
}
use startup.Json.{Json, null, bool, num, str, arr, obj}
use startup.Env.{Url}
use startup.Api.Transport.{
  Platform, Fetched, Outcome, value, no_content, api_error, syntax_error, read_error, waiting,
  is_read_method,
}
use startup.Api.Request.{Entropy}
use startup.Api.Retry.{fetches}
use startup.Api.Limits.{is_settled, is_stalled, request-write}
use startup.Access.Verify.{TokenReply, token, no_token}
use startup.Purchase.{
  with_token, saving, Status, saved, error, Button, is_stripe, is_trusted_stripe_checkout_url,
  begin_purchase, checkout_url_of, is_pending, fail, take_purchase, not_yet, take_outcome,
  purchase_request, purchase_tool,
}

-- The window is on its way to the checkout of Stripe.
pub record IsAtCheckout (parse_url : Text → Option Url) (b : Button) : Type 0 where
  pub place : Text
  pub url : Url
  pub location : b.location ≡ some place
  pub parsed : parse_url place ≡ some url
  pub protocol : url.protocol ≡ codes "https:"
  pub hostname : url.hostname ≡ codes "checkout.stripe.com"

-- The window stays, and the button says how it went.
abbrev pub Says : Button → Status → Type 0
Says b status = (b.location ≡ none) × (b.status ≡ status) × (is_some b.message ≡ true)

abbrev pub Ends : (Text → Option Url) → Button → Type 0
Ends parse_url b = IsAtCheckout parse_url b ⊎ Says b saved ⊎ Says b error

-- The body of the answer never ends, and the page waits for it.
abbrev pub Waits : (ℕ → Fetched) → Button → Type 0
Waits network b = (is_stalled (network 0) ≡ true) × (b.location ≡ none) × (b.status ≡ saving)

IsAtCheckout-trusted :
    (parse_url : Text → Option Url) (place : Text) (b : Button)
    → is_trusted_stripe_checkout_url parse_url place ≡ true
    → IsAtCheckout parse_url (record b { location = some place })
unfolding is_trusted_stripe_checkout_url is_stripe
IsAtCheckout-trusted parse_url place b h = elim (Option-cases (parse_url place)) [
  | inl e ↦ cc (rw e at h)
  | inr (url, e) ↦
      let trusted = rw e at h in
      record {
        place = place;
        url = url;
        location = refl;
        parsed = e;
        protocol = (text_eq_iff url.protocol (codes "https:")).0 (ground arith);
        hostname = (text_eq_iff url.hostname (codes "checkout.stripe.com")).0 (ground arith);
      }
]

fail-Ends :
    (parse_url : Text → Option Url) (message : Text) (b : Button)
    → b.location ≡ none
    → Ends parse_url (fail message b)
unfolding fail
fail-Ends parse_url message b h = inr (inr (h, refl, refl))

take_purchase-Ends :
    (parse_url : Text → Option Url) (number : ℕ → Text) (body : Json) (b : Button)
    → b.location ≡ none
    → Ends parse_url (take_purchase parse_url number body b)
unfolding take_purchase
take_purchase-Ends parse_url number body b h = elim (Option-cases (checkout_url_of number body)) [
  | inr (place, e) ↦ elim (Bool-cases (is_trusted_stripe_checkout_url parse_url place)) [
    | inl good ↦
        rw (e, take_purchase)
          (rw (good, take_purchase) (inl (IsAtCheckout-trusted parse_url place b good)))
    | inr bad ↦ rw (e, take_purchase) (rw (bad, take_purchase) (fail-Ends parse_url _ b h))
  ]
  | inl e ↦ elim (Bool-cases (is_pending body)) [
    | inl good ↦ rw (e, take_purchase) (rw (good, take_purchase) (fail-Ends parse_url _ b h))
    | inr bad ↦ rw (e, take_purchase) (rw (bad, take_purchase) (inr (inl (h, refl, refl))))
  ]
]

not_yet-Ends :
    (parse_url : Text → Option Url) (b : Button) → b.location ≡ none → Ends parse_url (not_yet b)
unfolding not_yet
not_yet-Ends parse_url b h = fail-Ends parse_url _ b h

take_outcome-Ends :
    (parse_url : Text → Option Url) (number : ℕ → Text) (outcome : Option Outcome) (b : Button)
    → b.location ≡ none
    → is_settled outcome ≡ true
    → Ends parse_url (take_outcome parse_url number outcome b)
unfolding take_outcome
take_outcome-Ends parse_url number none b h settled = cc settled
take_outcome-Ends parse_url number (some (value null)) b h settled = not_yet-Ends parse_url b h
take_outcome-Ends parse_url number (some (value (bool x))) b h settled =
    take_purchase-Ends parse_url number (bool x) b h
take_outcome-Ends parse_url number (some (value (num x))) b h settled =
    take_purchase-Ends parse_url number (num x) b h
take_outcome-Ends parse_url number (some (value (str x))) b h settled =
    take_purchase-Ends parse_url number (str x) b h
take_outcome-Ends parse_url number (some (value (arr x))) b h settled =
    take_purchase-Ends parse_url number (arr x) b h
take_outcome-Ends parse_url number (some (value (obj x))) b h settled =
    take_purchase-Ends parse_url number (obj x) b h
take_outcome-Ends parse_url number (some no_content) b h settled = not_yet-Ends parse_url b h
take_outcome-Ends parse_url number (some syntax_error) b h settled = not_yet-Ends parse_url b h
take_outcome-Ends parse_url number (some (read_error message)) b h settled =
    not_yet-Ends parse_url b h
take_outcome-Ends parse_url number (some waiting) b h settled = cc settled
take_outcome-Ends parse_url number (some (api_error e)) b h settled =
    elim (Bool-cases (e.status == 403)) [
      | inl own ↦ rw (own, take_outcome) (fail-Ends parse_url _ b h)
      | inr bad ↦ rw (bad, take_outcome) (not_yet-Ends parse_url b h)
    ]

take_waiting :
    (parse_url : Text → Option Url) (number : ℕ → Text) (outcome : Option Outcome) (b : Button)
    → outcome ≡ some waiting
    → take_outcome parse_url number outcome b ≡ b
unfolding take_outcome
take_waiting parse_url number outcome b h = rw h refl

-- A purchase calls the network once at most, so that nothing is bought twice, and it ends, unless the
-- body of the answer never ends, for which it then waits on the page: it ends with the window on its
-- way to an https URL of the host checkout.stripe.com, or on the page, with a message of success or of
-- an error. It is never sent to another place.
pub purchase_tool-Ends :
    (js : Platform) (network : ℕ → Fetched) (entropy : Entropy) (tool_id : Text)
    (reply : TokenReply) (b : Button)
    → b.location ≡ none
    → (Ends js.parse_url (purchase_tool js network entropy tool_id reply b).0
        ⊎ Waits network (purchase_tool js network entropy tool_id reply b).0)
      × (fetches (purchase_tool js network entropy tool_id reply b).1 ≤ 1)
unfolding purchase_tool begin_purchase purchase_request is_read_method text_eq codes
purchase_tool-Ends js network entropy tool_id (no_token message) b h =
    (inl (not_yet-Ends js.parse_url (begin_purchase b) h), omega arith)
purchase_tool-Ends js network entropy tool_id (token given) b h =
    let (ends, calls, sleeps) =
      request-write js network entropy (codes "POST")
        (codes "/billing/tools/" ++ (tool_id ++ codes "/purchase")) none (with_token given) refl in
    (
      elim ends [
        | inl settled ↦
            inl (take_outcome-Ends js.parse_url js.number_text _ (begin_purchase b) h settled)
        | inr (n, (first, stall, waits)) ↦
            let is_first : n ≡ 0 = omega arith in
            rw (take_waiting js.parse_url js.number_text _ (begin_purchase b) waits)
              (inr (rw is_first at stall, h, refl))
      ],
      calls,
    )
