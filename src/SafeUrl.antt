-- ===== src/SafeUrl.antt =====
-- apps/web/src/lib/safe-url.ts. `new URL` is a parameter; the regular expression is written out.
pub mod Laws
mod Tests
use startup.Common.{
  ℕ, ◌+◌, Bool, true, false, not, ◌&&◌, ◌||◌, Option, none, some, List, [], ◌∷◌, ◌++◌, ◌==◌,
  if◌then◌else◌, Text, codes, is_blank, text_eq, trim, is_space, is_alnum, is_upper, contains, all,
}
use startup.Env.{Url}

unfoldable pub safe_external_hosts : List Text
safe_external_hosts = codes "github.com" ∷ codes "www.github.com" ∷ []

-- The text behind a prefix, in either case of the letters a to z. The prefix is in lower case.
pub after_prefix : Text → Text → Option Text
after_prefix [] s = some s
after_prefix (p ∷ ps) [] = none
after_prefix (p ∷ ps) (c ∷ s) =
    if (if is_upper c then c + 32 else c) == p then after_prefix ps s else none

-- `[a-z0-9+/=\s]`
unfoldable pub is_payload : ℕ → Bool
is_payload c = is_alnum c || c == b'+' || c == b'/' || c == b'=' || is_space c

-- `;base64,[a-z0-9+/=\s]+$`
payload_follows : Option Text → Bool
payload_follows none = false
payload_follows (some rest) = elim (after_prefix (codes ";base64,") rest) [
  | none ↦ false
  | some payload ↦ not (is_blank payload) && all is_payload payload
]

-- `(?:png|jpe?g|gif|webp)` and what follows.
type_follows : Option Text → Bool
type_follows none = false
type_follows (some rest) =
    payload_follows (after_prefix (codes "png") rest)
    || payload_follows (after_prefix (codes "jpeg") rest)
    || payload_follows (after_prefix (codes "jpg") rest)
    || payload_follows (after_prefix (codes "gif") rest)
    || payload_follows (after_prefix (codes "webp") rest)

-- `SAFE_DATA_IMAGE_PATTERN.test(text)`
unfoldable pub is_data_image : Text → Bool
unfolding type_follows payload_follows after_prefix
is_data_image s = type_follows (after_prefix (codes "data:image/") s)

unfoldable pub remove_spaces : Text → Text
remove_spaces [] = []
remove_spaces (c ∷ s) = let rest = remove_spaces s in if is_space c then rest else c ∷ rest

-- `url.replace(/\\/g, "%5C").replace(/"/g, "%22")`
unfoldable pub replace_unit : ℕ → Text → Text → Text
replace_unit from to [] = []
replace_unit from to (c ∷ s) = (if c == from then to else c ∷ []) ++ replace_unit from to s

unfoldable pub escape : Text → Text
escape url = replace_unit 34 (codes "%22") (replace_unit 92 (codes "%5C") url)

-- `url("…")`; the quotes are units 34.
unfoldable pub css_url : Text → Text
css_url url = codes "url(" ++ (34 ∷ escape url ++ (34 ∷ codes ")"))

module _ (parse_url : Text → Option Url) where
  https_only : Option Url → Option Text
  https_only none = none
  https_only (some url) = if text_eq url.protocol (codes "https:") then some url.href else none

  unfoldable pub safe_https_url : Option Text → Option Text
  unfolding https_only
  safe_https_url none = none
  safe_https_url (some value) = if is_blank value then none else https_only (parse_url value)

  unfoldable pub safe_image_url : Option Text → Option Text
  safe_image_url none = none
  safe_image_url (some value) =
      if is_blank value
      then none
      else if is_data_image (trim value)
      then some (remove_spaces (trim value))
      else safe_https_url (some (trim value))

  -- `if (!url) return null; return css`
  css_of : Option Text → Option Text
  css_of none = none
  css_of (some url) = if is_blank url then none else some (css_url url)

  unfoldable pub safe_css_image_url : Option Text → Option Text
  unfolding css_of
  safe_css_image_url value = css_of (safe_https_url value)

  unfoldable pub safe_output_css_image_url : Option Text → Option Text
  unfolding css_of
  safe_output_css_image_url value = css_of (safe_image_url value)

  module _ (to_lower : Text → Text) where
    -- The URL is parsed a second time, outside the `try`: `none` is an exception.
    github_only : Option Url → Option (Option Text)
    github_only none = none
    github_only (some url) =
        some (if contains safe_external_hosts (to_lower url.hostname) then some url.href else none)

    github_of : Option Text → Option (Option Text)
    github_of none = some none
    github_of (some url) = if is_blank url then some none else github_only (parse_url url)

    unfoldable pub safe_github_url : Option Text → Option (Option Text)
    unfolding github_of github_only
    safe_github_url value = github_of (safe_https_url value)
