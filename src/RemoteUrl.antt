-- ===== src/RemoteUrl.antt =====
-- apps/seller-tools/home-accessibility-checker/services/url-safety.js: which remote URLs the server of
-- a seller's tool fetches. Addresses is the test of an IP address, Check that of a URL.
pub mod Addresses
pub mod Check
pub mod Ranges
pub mod Laws
mod Tests
use startup.Common.{ℕ, Option, List, Text}

-- What the code reads of a `URL`.
pub record Url : Type 0 where
  pub protocol : Text
  pub username : Text
  pub password : Text
  pub hostname : Text
  pub port : Text

-- `net.isIP`
pub data Family : Type 0 where
  no_ip ipv4 ipv6 : Family

-- What the platform provides: `new URL`, the URL with another host name (which may stay as it was) and
-- its text; `toLowerCase`; `net.isIP`; and `Number` of an octet of an IPv4 address.
pub record Platform : Type 0 where
  pub parse_url : Text → Option Url
  pub set_hostname : Text → Url → Url
  pub url_text : Url → Text
  pub to_lower : Text → Text
  pub is_ip : Text → Family
  pub octet : Text → ℕ
