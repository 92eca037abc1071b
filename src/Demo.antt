-- ===== src/Demo.antt =====
-- apps/web/src/components/demo/DemoRunner.tsx, without its rendering: the fields of a demo, and the
-- tests on texts and URLs that the checks use. A value that the source types `unknown` is a `Json`;
-- what a record holds under a name is asked of its own members only.
pub mod Fields
pub mod Payload
pub mod Defaults
pub mod Reply
pub mod Session
pub mod Page
pub mod FieldLaws
pub mod PayloadLaws
pub mod ReplyLaws
pub mod FaultLaws
pub mod SessionLaws
mod Tests
use startup.Common.{
  ℕ, ◌-◌, Bool, true, false, not, ◌&&◌, ◌||◌, Option, none, some, List, [], ◌∷◌, if◌then◌else◌, any,
  ◌==◌, Text, codes, text_eq, is_blank, is_alnum, is_lower, includes, replace_char,
}
use startup.Json.{Json, null, bool, num, str, arr, obj, coalesce, to_text}
use startup.Env.{Url}

-- `string` is a text.
pub data DemoFieldType : Type 0 where
  string number file url : DemoFieldType

pub record DemoSchemaField : Type 0 where
  pub name : Text
  pub type : DemoFieldType
  pub required : Bool
  pub placeholder : Option Text

-- What the platform provides: `number` is `Number(x)`, `is_truthy_number` is `Boolean(x)` of a number.
pub record Browser : Type 0 where
  pub to_lower : Text → Text
  pub parse_url : Text → Option Url
  pub parse_json : Text → Option Json
  pub stringify : Json → Text
  pub number_text : ℕ → Text
  pub number : Json → ℕ
  pub is_truthy_number : ℕ → Bool
  pub is_finite : ℕ → Bool
  pub is_below_one : ℕ → Bool

abbrev is_word : ℕ → Bool
is_word c = is_alnum c || c == b'_'

-- `s.replace(/\b\w/g, (char) => char.toUpperCase())`, `before` telling whether a word goes on.
capitalize : Bool → Text → Text
capitalize before [] = []
capitalize before (c ∷ s) =
    (if not before && is_lower c then c - 32 else c) ∷ capitalize (is_word c) s

unfoldable pub humanize : Text → Text
unfolding capitalize
humanize value = capitalize false (replace_char b'_' 32 value)

module _ (js : Browser) where
  -- `Boolean(value)`
  unfoldable pub is_truthy : Option Json → Bool
  is_truthy none = false
  is_truthy (some null) = false
  is_truthy (some (bool b)) = b
  is_truthy (some (num n)) = js.is_truthy_number n
  is_truthy (some (str s)) = not (is_blank s)
  is_truthy (some (arr items)) = true
  is_truthy (some (obj members)) = true

  -- `String(value ?? "")`
  unfoldable pub text_of : Option Json → Text
  text_of value = to_text js.number_text (coalesce value (str []))

  is_web : Option Url → Bool
  is_web none = false
  is_web (some u) = text_eq u.protocol (codes "http:") || text_eq u.protocol (codes "https:")

  unfoldable pub is_valid_url : Text → Bool
  unfolding is_web
  is_valid_url value = is_web (js.parse_url value)

  is_listing_host : Option Url → Bool
  is_listing_host none = false
  is_listing_host (some u) =
      any (λ domain. includes domain (js.to_lower u.hostname))
        (codes "zillow.com" ∷ codes "redfin.com" ∷ codes "realtor.com" ∷ codes "mls.com" ∷ [])

  unfoldable pub is_likely_property_listing_url : Text → Bool
  unfolding is_listing_host
  is_likely_property_listing_url value = is_listing_host (js.parse_url value)
