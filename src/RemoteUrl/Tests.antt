-- ===== src/RemoteUrl/Tests.antt =====
-- The filter at concrete inputs.
use startup.Common.{
  ◌≡◌, refl, not, Option, some, List, [], ◌∷◌, any, codes, Text, text_eq, split, split_from,
  if◌then◌else◌, ends_with, ascii_lower, arith,
}
use startup.RemoteUrl.{Url, Platform, ipv4, no_ip}
use startup.RemoteUrl.Addresses.{
  is_public_octets, is_reserved_octets, is_public_ipv4, is_public_ip_address,
}
use startup.RemoteUrl.Ranges.{number_of, is_within, reserved_ranges, is_public_octets_lem}
use startup.RemoteUrl.Check.{
  ok, assert_public_https_url, parse_safe_https_url, check_url, check_host, check_addresses,
  is_local_host, is_allowed_host, host_of, without_brackets, without_last, without_first,
}
use startup.RemoteUrl.Laws.{IsSafe, IsForm, IsReached, assert_public_https_url-IsSafe}

is_public_octets_lem_example :
    is_public_octets (172 ∷ 31 ∷ 0 ∷ 9 ∷ [])
    ≡ not (any (is_within (number_of 172 31 0 9)) reserved_ranges)
is_public_octets_lem_example =
    is_public_octets_lem 172 31 0 9 (omega arith) (omega arith) (omega arith) (omega arith)

abbrev listing : Url
listing = record {
  protocol = codes "https:";
  username = [];
  password = [];
  hostname = codes "www.zillow.com.";
  port = [];
}

abbrev platform : Platform
platform = record {
  parse_url = λ s. some listing;
  set_hostname = λ hostname url. record url { hostname = hostname };
  url_text = λ url. url.hostname;
  to_lower = ascii_lower;
  is_ip = λ s. if text_eq s (codes "8.8.8.8") then ipv4 else no_ip;
  octet = λ s. 8;
}

abbrev suffixes : List Text
suffixes = codes "zillow.com" ∷ []

abbrev lookup : Text → Option (List Text)
lookup hostname = some (codes "8.8.8.8" ∷ [])

assert_public_https_url_test :
    assert_public_https_url platform suffixes lookup (codes "https://www.zillow.com./")
    ≡ ok (codes "www.zillow.com")
unfolding assert_public_https_url parse_safe_https_url check_url check_host check_addresses
    is_local_host is_allowed_host host_of without_brackets without_last without_first text_eq codes
    ends_with ascii_lower is_public_octets is_public_ip_address is_public_ipv4 is_reserved_octets
    split split_from
assert_public_https_url_test = refl

assert_public_https_url-IsSafe_example :
    (url : Url) × (final : Url) × (some listing ≡ some url)
    × IsSafe platform suffixes lookup url
    × IsForm platform suffixes lookup url final
    × (final.hostname ≡ codes "www.zillow.com")
    × IsReached platform suffixes lookup (without_brackets final.hostname)
assert_public_https_url-IsSafe_example =
    assert_public_https_url-IsSafe platform suffixes lookup (codes "https://www.zillow.com./")
      (codes "www.zillow.com") assert_public_https_url_test
