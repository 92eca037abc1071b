-- ===== src/Gateway.antt =====
-- apps/seller-tools/home-accessibility-checker/services/gateway-auth.js: how the server of a seller's
-- tool tells the requests that the marketplace has signed. Message is the text that is signed, Verifier
-- is `createGatewayVerifier` with the cache that refuses replays.
pub mod Message
pub mod Verifier
pub mod MessageLaws
pub mod CacheLaws
pub mod Safety
pub mod Replay
mod Tests
use startup.Common.{ℕ, Bool, Option, List, Text}

-- An integer: a natural number, or one less than the negative of one.
pub data ℤ : Type 0 where
  pos negsuc : ℕ → ℤ

-- What the platform provides: the safe integer that `Number` makes of a text, if it does; the decimal
-- text of an integer; `toUpperCase`; the bytes of a base64url text; and, for the public key that is
-- configured, whether `crypto.verify` accepts a signature of the UTF-8 bytes of a text.
pub record Platform : Type 0 where
  pub safe_integer : Text → Option ℤ
  pub integer_text : ℤ → Text
  pub to_upper : Text → Text
  pub base64url : Text → List ℕ
  pub verify : Text → List ℕ → Bool

-- A request with its headers.
pub record Request : Type 0 where
  pub method : Text
  pub original_url : Text
  pub version : Option Text
  pub key_id : Option Text
  pub timestamp : Option Text
  pub signature : Option Text
  pub request_id : Option Text
  pub tool_slug : Option Text
