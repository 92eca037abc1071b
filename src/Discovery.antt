-- ===== src/Discovery.antt =====
-- apps/web/src/app/marketplace/MarketplaceClient.tsx without its rendering: the catalogue that a
-- visitor browses, and the search that finds tools for a query. Convert is the fallback on the
-- converter, Matching is `fetchAndMatch`, Flow the search from the query to its results, Browse is
-- `fetchTools` and the choices of the visitor.
pub mod Convert
pub mod Matching
pub mod Flow
pub mod Browse
pub mod Sources
pub mod Origins
pub mod Scores
pub mod FlowLaws
mod Tests
use startup.Common.{ℕ, Option, List, Text}
use startup.Marketplace.{Tool, ToolListResponse}
use startup.Env.{Variables}
use startup.Discovery.Convert.{ConverterTool}

-- What `/tools/discover` answers. A score is the 64 bits of a double.
pub record Match : Type 0 where
  pub tool : Tool
  pub fit_line : Text
  pub match_score : ℕ
  pub matched_keywords : List Text

-- What the platform provides: `toLowerCase`, the percent encoding of `URLSearchParams`, the text of a
-- number, the double of a natural number, `Math.max` of two doubles, and `Math.round((a / b) * 100)`,
-- of two doubles and of two natural numbers. The scores of the API are not negative.
pub record Platform : Type 0 where
  pub env : Variables
  pub to_lower : Text → Text
  pub encode : List (Text × Text) → Text
  pub number_text : ℕ → Text
  pub double : ℕ → ℕ
  pub max : ℕ → ℕ → ℕ
  pub percent_of : ℕ → ℕ → ℕ
  pub percent : ℕ → ℕ → ℕ

-- How the converter is met: its request or its JSON throws, it answers without success, or with tools
-- and their number.
pub data ConverterReply : Type 0 where
  unreachable refused : ConverterReply
  found : (tools : List ConverterTool) (total : ℕ) → ConverterReply

-- How the API and the converter answer: `none` is an exception.
pub record Server : Type 0 where
  pub discover : Text → ℕ → Option (List Match)
  pub list : Text → Option ToolListResponse
  pub converter : Text → ConverterReply

-- The requests that are made.
pub data Call : Type 0 where
  asked_discover : Text → ℕ → Call
  asked_list : Text → Call
  asked_converter : Text → Call
