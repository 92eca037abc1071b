-- ===== src/Gateway/Message.antt =====
-- `decodeBase64Url` and `buildCanonicalMessage`. An exception is `none`: its message is not shown.
use startup.Common.{
  ℕ, Bool, true, false, not, ◌&&◌, ◌||◌, Option, none, some, List, [], ◌∷◌, length, ◌==◌, leb, any,
  if◌then◌else◌, Text, codes, is_blank, trim, join, starts_with, is_digit, is_lower, is_upper,
}
use startup.Gateway.{ℤ, Platform}

-- Letters, digits, `_` and `-`.
abbrev is_base64url_char : ℕ → Bool
is_base64url_char c = is_digit c || is_lower c || is_upper c || c == 95 || c == 45

-- `={0,2}$`
abbrev is_padding : Text → Bool
is_padding [] = true
is_padding (c ∷ []) = c == 61
is_padding (c ∷ d ∷ []) = c == 61 && d == 61
is_padding _ = false

-- The pattern behind its first character.
base64url_rest : Text → Bool
base64url_rest [] = true
base64url_rest (c ∷ s) =
    let rest = base64url_rest s in if is_base64url_char c then rest else is_padding (c ∷ s)

-- `/^[A-Za-z0-9_-]+={0,2}$/`
unfoldable pub is_base64url : Text → Bool
unfolding base64url_rest
is_base64url [] = false
is_base64url (c ∷ s) = is_base64url_char c && base64url_rest s

-- `replace(/=+$/, "")`
unfoldable pub strip_padding : Text → Text
strip_padding [] = []
strip_padding (c ∷ s) =
    let rest = strip_padding s in if c == 61 && is_blank rest then [] else c ∷ rest

-- `/^[A-Za-z0-9._-]{1,64}$/`
unfoldable pub is_key_id : Text → Bool
is_key_id s =
    leb 1 (length s)
    && (leb (length s) 64 && not (any (λ c. not (is_base64url_char c || c == 46)) s))

-- `/[\0\r\n]/`
unfoldable pub has_control : Text → Bool
has_control s = any (λ c. c == 0 || (c == 13 || c == 10)) s

unfoldable pub signature_version : Text
signature_version = codes "ed25519-v1"

-- The fields that are signed.
pub record Fields : Type 0 where
  pub method : Text
  pub request_target : Text
  pub timestamp : ℤ
  pub request_id : Text
  pub tool_slug : Text
  pub key_id : Text

module _ (js : Platform) where
  unfoldable pub decode_base64_url : Text → ℕ → Option (List ℕ)
  decode_base64_url value expected_length =
      let normalized = trim value in
      if not (is_base64url normalized)
      then none
      else let decoded = js.base64url (strip_padding normalized) in
        if length decoded == expected_length then some decoded else none

  abbrev pub values : Fields → List Text
  values f =
      signature_version
      ∷ f.key_id
      ∷ js.integer_text f.timestamp
      ∷ f.request_id
      ∷ f.tool_slug
      ∷ js.to_upper f.method
      ∷ f.request_target
      ∷ []

  unfoldable pub build_canonical_message : Fields → Option Text
  build_canonical_message f =
      if not (is_key_id f.key_id)
      then none
      else if not (starts_with (codes "/") f.request_target)
      then none
      else if any has_control (values f)
      then none
      else some (join (10 ∷ []) (values f))
