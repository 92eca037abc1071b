-- ===== src/Submit.antt =====
-- The page apps/web/src/app/submit/page.tsx: its state, its checks, and what each event does to the
-- state. The rendering is left out.
pub mod Flow
pub mod Requests
pub mod Invariant
pub mod Ending
pub mod Calls
mod Tests
use startup.Common.{
  ℕ, zero, suc, ◌+◌, ◌-◌, Bool, true, false, not, ◌&&◌, ◌||◌, Option, none, some, List, [], ◌∷◌,
  ◌++◌, ltb, leb, if◌then◌else◌, ◌or_else◌, length, drop, keep, find?, any, Text, codes, is_blank,
  text_eq, trim, starts_with, split, contains, includes, ascii_lower, truthy,
}
use startup.Marketplace.{Tool, ToolCategory}
use startup.Submission.{PricingModel, buy, royalty, SubmissionRecord}

pub data Phase : Type 0 where
  input analyzing review done : Phase

pub data CompletionMode : Type 0 where
  owned preview : CompletionMode

pub record Listing : Type 0 where
  pub id : Option Text
  pub name : Text
  pub description : Text
  pub category : ToolCategory
  pub stack : List Text
  pub inputs : Text
  pub outputs : Text
  pub language : Text
  pub license : Text

pub record Analysis : Type 0 where
  pub name : Text
  pub description : Text
  pub category : Text
  pub tech_stack : List Text
  pub input_contract : Text
  pub output_contract : Text
  pub complexity : Text
  pub suggested_price_cents : ℕ
  pub pricing_model : Text
  pub language : Option Text
  pub license : Option Text

pub record SubmitResponse : Type 0 where
  pub tool : Tool
  pub analysis : Analysis
  pub message : Text

-- The `useState` variables. A `step` of -1 is `none`.
pub record State : Type 0 where
  pub phase : Phase
  pub url : Text
  pub url_error : Text
  pub step : Option ℕ
  pub listing : Option Listing
  pub stack_input : Text
  pub pricing_model : PricingModel
  pub amount : Text
  pub api_response : Option SubmitResponse
  pub api_ready : Bool
  pub analysis_error : Text
  pub submit_error : Text
  pub is_submitting : Bool
  pub submission_record : Option SubmissionRecord
  pub completion_mode : CompletionMode

unfoldable pub initial : State
initial = record {
  phase = input;
  url = [];
  url_error = [];
  step = none;
  listing = none;
  stack_input = [];
  pricing_model = buy;
  amount = [];
  api_response = none;
  api_ready = false;
  analysis_error = [];
  submit_error = [];
  is_submitting = false;
  submission_record = none;
  completion_mode = preview;
}

unfoldable pub github_prefix : Text
github_prefix = codes "https://github.com/"

-- The error of the URL, empty if there is none.
unfoldable pub validate_github_url : Text → Text
validate_github_url url =
    if is_blank (trim url)
    then codes "Paste a GitHub repository URL."
    else if not (starts_with github_prefix url)
    then codes "Must be a github.com URL."
    else if ltb
        (length (keep (λ s. not (is_blank s)) (split b'/' (drop (length github_prefix) url)))) 2
    then codes "URL needs owner and repo name."
    else []

-- Numbers of JavaScript, as the 64 bits of a double, with the operations that the page uses.
pub record Doubles : Type 0 where
  pub number : Text → ℕ
  pub is_finite : ℕ → Bool
  pub lt : ℕ → ℕ → Bool
  pub le : ℕ → ℕ → Bool
  pub to_fixed : ℕ → ℕ → Text
  pub hundredth : ℕ → ℕ

-- The largest price, as a literal of the source.
unfoldable pub maximum_price : PricingModel → Text
maximum_price buy = codes "99999999.99"
maximum_price royalty = codes "9999.999999"

module _ (d : Doubles) where
  unfoldable pub is_valid_price_amount : Text → PricingModel → Bool
  is_valid_price_amount raw_amount pricing_model =
      not (is_blank (trim raw_amount))
      && (d.is_finite (d.number raw_amount)
          && (d.lt (d.number (codes "0")) (d.number raw_amount)
              && d.le (d.number raw_amount) (d.number (maximum_price pricing_model))))

unfoldable pub languages : List Text
languages =
    codes "TypeScript"
    ∷ codes "JavaScript"
    ∷ codes "Python"
    ∷ codes "Go"
    ∷ codes "Rust"
    ∷ codes "Ruby"
    ∷ codes "Java"
    ∷ codes "C++"
    ∷ codes "C#"
    ∷ []

-- `/a|b|c/i.test(s)`
pub mentions : List Text → Text → Bool
mentions words s = any (λ w. includes w (ascii_lower s)) words

module _ (to_lower : Text → Text) where
  known_language : List Text → Option Text
  known_language [] = none
  known_language (s ∷ rest) = elim (find? (λ l. text_eq (to_lower l) (to_lower s)) languages) [
    | some hit ↦ some hit
    | none ↦ known_language rest
  ]

  first_or_unknown : List Text → Text
  first_or_unknown [] = codes "Unknown"
  first_or_unknown (s ∷ rest) = if is_blank s then codes "Unknown" else s

  unfoldable pub infer_language : List Text → Text
  unfolding known_language first_or_unknown mentions
  infer_language stack = elim (known_language stack) [
    | some hit ↦ hit
    | none ↦
        if any (mentions (codes "node" ∷ codes "express" ∷ codes "next" ∷ codes "react" ∷ [])) stack
        then codes "TypeScript"
        else if any (mentions (codes "flask" ∷ codes "fastapi" ∷ codes "django" ∷ [])) stack
        then codes "Python"
        else first_or_unknown stack
  ]
