-- ===== src/Submit/Flow.antt =====
-- The event handlers and effects of the page, but for `submitForReview`.
use startup.Common.{
  ℕ, ◌+◌, Bool, true, false, not, ◌&&◌, ◌||◌, Option, none, some, [], ◌∷◌, ◌++◌, ltb, ◌==◌,
  if◌then◌else◌, ◌or_else◌, keep, Text, codes, is_blank, text_eq, trim, contains, truthy,
}
use mathlib.Core.Option
use startup.Access.Verify.{TokenReply, token, no_token}
use startup.Submission.{PricingModel, buy, royalty}
use startup.Submit.{
  Phase, input, analyzing, review, preview, Listing, SubmitResponse, State, validate_github_url,
  Doubles, infer_language,
}

unfoldable pub set_url : Text → State → State
set_url v s = record s { url = v; url_error = [] }

-- What the page knows of the account, and how `account.getToken()` ends, which it calls for an account
-- that is signed in.
pub record Account : Type 0 where
  pub is_signed_in : Bool
  pub token : TokenReply

-- `account.isSignedIn ? await account.getToken() : null`, or `none` if that is rejected.
unfoldable pub awaited_token : Account → Option (Option Text)
awaited_token account =
    if account.is_signed_in
    then (elim account.token [ token given ↦ some given | no_token message ↦ none ])
    else some none

-- What is sent to POST /tools/submit.
pub record AnalysisCall : Type 0 where
  pub github_url : Text
  pub timeout_ms : ℕ
  pub token : Option Text

abbrev pub analysis_call : Text → Option Text → AnalysisCall
analysis_call url given = record { github_url = trim url; timeout_ms = 60000; token = given }

-- `analyze`: the new state, which is set before the token is awaited, and what is sent once the token
-- is there. If `getToken` is rejected, the function ends, and nothing is sent.
unfoldable pub analyze : Account → State → State × Option AnalysisCall
unfolding awaited_token
analyze account s =
    let err = validate_github_url s.url in
    if not (is_blank err) then (record s { url_error = err }, none) else (
      record s {
        url_error = [];
        analysis_error = [];
        submit_error = [];
        api_response = none;
        api_ready = false;
        phase = analyzing;
        step = some 0;
      },
      Option.map (analysis_call s.url) (awaited_token account),
    )

-- How POST /tools/submit ends: with a response, an `ApiError` with its message, or another error.
pub data Settled : Type 0 where
  answered : SubmitResponse → Settled
  refused : Text → Settled
  broken : Settled

unfoldable pub settle : Settled → State → State
settle (answered res) s = record s { api_response = some res; api_ready = true }
settle (refused message) s = record s { analysis_error = message; api_ready = true }
settle broken s = record s {
  analysis_error = codes "Could not analyze this repository right now. Please try again.";
  api_ready = true;
}

-- `SUBMIT_STEPS.length - 1`
abbrev pub last_step : ℕ
last_step = 4

abbrev pub is_analyzing : Phase → Bool
is_analyzing analyzing = true
is_analyzing _ = false

-- `step < SUBMIT_STEPS.length - 1`
abbrev pub is_before_last : Option ℕ → Bool
is_before_last none = true
is_before_last (some k) = ltb k last_step

abbrev pub next_step : Option ℕ → ℕ
next_step none = 0
next_step (some k) = k + 1

-- The timer of the animation.
unfoldable pub tick_step : State → State
tick_step s =
    if is_analyzing s.phase && is_before_last s.step
    then record s { step = some (next_step s.step) }
    else s

unfoldable pub pricing_model_of : Text → Option PricingModel
pricing_model_of model =
    if text_eq model (codes "buy")
    then some buy
    else if text_eq model (codes "royalty")
    then some royalty
    else none

-- What the gate knows of the platform.
pub record Gate : Type 0 where
  pub to_lower : Text → Text
  pub doubles : Doubles

unfoldable pub listing_of : (Text → Text) → SubmitResponse → Listing
listing_of to_lower res = record {
  id = some res.tool.id;
  name = res.analysis.name;
  description = res.analysis.description;
  category = res.tool.category;
  stack = res.analysis.tech_stack;
  inputs = res.analysis.input_contract;
  outputs = res.analysis.output_contract;
  language = truthy res.analysis.language or_else infer_language to_lower res.analysis.tech_stack;
  license = truthy res.analysis.license or_else codes "MIT";
}

unfoldable pub show_review : Gate → SubmitResponse → State → State
show_review js res s = record s {
  listing = some (listing_of js.to_lower res);
  pricing_model = pricing_model_of res.analysis.pricing_model or_else s.pricing_model;
  amount =
      if ltb 0 res.analysis.suggested_price_cents
      then js.doubles.to_fixed 2 (js.doubles.hundredth res.analysis.suggested_price_cents)
      else s.amount;
  phase = review;
}

unfoldable pub open_gate : Gate → Option SubmitResponse → State → State
open_gate js none s = record s {
  url_error =
      truthy (some s.analysis_error)
      or_else codes "Could not analyze this repository right now. Please try again.";
  phase = input;
  step = none;
}
open_gate js (some res) s = show_review js res s

-- The timer that leaves the phase `analyzing`.
unfoldable pub tick_gate : Gate → State → State
tick_gate js s =
    if is_analyzing s.phase && (s.api_ready && not (is_before_last s.step))
    then open_gate js s.api_response s
    else s

-- The listing is edited, if there is one.
unfoldable pub edit : (Listing → Listing) → State → State
edit f s = elim s.listing [ none ↦ s | some l ↦ record s { listing = some (f l) } ]

-- `text.replace(/,$/, "")`
unfoldable pub drop_comma : Text → Text
drop_comma [] = []
drop_comma (c ∷ []) = if c == b',' then [] else c ∷ []
drop_comma (c ∷ d ∷ r) = c ∷ drop_comma (d ∷ r)

add_to_stack : Text → Listing → State → State
add_to_stack v l s =
    if is_blank v || contains l.stack v
    then s
    else record s { listing = some (record l { stack = l.stack ++ v ∷ [] }); stack_input = [] }

unfoldable pub add_stack : State → State
unfolding add_to_stack
add_stack s = elim s.listing [
  | none ↦ s
  | some l ↦ add_to_stack (drop_comma (trim s.stack_input)) l s
]

unfoldable pub remove_stack : Text → State → State
remove_stack item s = edit (λ l. record l { stack = keep (λ x. not (text_eq x item)) l.stack }) s

unfoldable pub reset : State → State
reset s = record s {
  phase = input;
  url = [];
  url_error = [];
  step = none;
  listing = none;
  stack_input = [];
  amount = [];
  pricing_model = buy;
  api_response = none;
  api_ready = false;
  analysis_error = [];
  submit_error = [];
  is_submitting = false;
  submission_record = none;
  completion_mode = preview;
}
