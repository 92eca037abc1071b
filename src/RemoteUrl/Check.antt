-- ===== src/RemoteUrl/Check.antt =====
-- `parseSafeHttpsUrl` and `assertPublicHttpsUrl`. The answer of the DNS is an argument.
use startup.Common.{
  ℕ, Bool, true, false, not, ◌&&◌, ◌||◌, Option, none, some, List, [], ◌∷◌, ◌++◌, any, ◌==◌,
  if◌then◌else◌, Text, codes, text_eq, is_blank, ends_with,
}
use startup.RemoteUrl.{Url, Platform, Family, no_ip, ipv6}
use startup.RemoteUrl.Addresses.{is_public_ip_address}

-- The messages of `unsafeUrlError`.
pub data UnsafeUrl : Type 0 where
  invalid not_https credentials other_port local_host other_host private_address unresolved
        no_address private_host :
      UnsafeUrl

pub data Result (A : Type 0) : Type 0 where
  ok : A → Result A
  unsafe : UnsafeUrl → Result A

abbrev pub blocked_host_suffixes : List Text
blocked_host_suffixes =
    codes ".internal" ∷ codes ".local" ∷ codes ".localhost" ∷ codes ".home.arpa" ∷ []

-- `replace(/\.$/, "")` and the like: a last unit is taken away.
unfoldable pub without_last : ℕ → Text → Text
without_last unit [] = []
without_last unit (c ∷ []) = if c == unit then [] else c ∷ []
without_last unit (c ∷ d ∷ s) = c ∷ without_last unit (d ∷ s)

unfoldable pub without_first : ℕ → Text → Text
without_first unit [] = []
without_first unit (c ∷ s) = if c == unit then s else c ∷ s

-- `replace(/^\[|\]$/g, "")`
unfoldable pub without_brackets : Text → Text
without_brackets s = without_last b']' (without_first b'[' s)

unfoldable pub is_local_host : Text → Bool
is_local_host hostname =
    text_eq hostname (codes "localhost")
    || any (λ suffix. ends_with suffix hostname) blocked_host_suffixes

-- An empty list of suffixes, which stands for none as well, allows every host.
unfoldable pub is_allowed_host : List Text → Text → Bool
is_allowed_host [] hostname = true
is_allowed_host (s ∷ suffixes) hostname =
    any (λ suffix. text_eq hostname suffix || ends_with (codes "." ++ suffix) hostname)
      (s ∷ suffixes)

abbrev pub is_ipv6 : Family → Bool
is_ipv6 ipv6 = true
is_ipv6 _ = false

module _ (js : Platform) where
  unfoldable pub host_of : Url → Text
  host_of url = without_last b'.' (without_brackets (js.to_lower url.hostname))

  unfoldable pub check_url : List Text → Url → Result Url
  check_url suffixes url =
      if not (text_eq url.protocol (codes "https:"))
      then unsafe not_https
      else if not (is_blank url.username) || not (is_blank url.password)
      then unsafe credentials
      else if not (is_blank url.port) && not (text_eq url.port (codes "443"))
      then unsafe other_port
      else if is_local_host (host_of url)
      then unsafe local_host
      else if not (is_allowed_host suffixes (host_of url))
      then unsafe other_host
      else ok (if is_ipv6 (js.is_ip (host_of url)) then url else js.set_hostname (host_of url) url)

  unfoldable pub parse_safe_https_url : List Text → Text → Result Url
  parse_safe_https_url suffixes raw_url = elim (js.parse_url raw_url) [
    | none ↦ unsafe invalid
    | some url ↦ check_url suffixes url
  ]

  -- The answer of the DNS, `none` if it fails.
  unfoldable pub check_addresses : Option (List Text) → Url → Result Text
  check_addresses none url = unsafe unresolved
  check_addresses (some []) url = unsafe no_address
  check_addresses (some (a ∷ rest)) url =
      if any (λ address. not (is_public_ip_address js address)) (a ∷ rest)
      then unsafe private_host
      else ok (js.url_text url)

  unfoldable pub check_host : (Text → Option (List Text)) → Url → Text → Family → Result Text
  check_host lookup url hostname no_ip = check_addresses (lookup hostname) url
  check_host lookup url hostname _ =
      if not (is_public_ip_address js hostname)
      then unsafe private_address
      else ok (js.url_text url)

  abbrev pub after_parse : (Text → Option (List Text)) → Result Url → Result Text
  after_parse lookup (unsafe e) = unsafe e
  after_parse lookup (ok url) =
      let hostname = without_brackets url.hostname in
      check_host lookup url hostname (js.is_ip hostname)

  unfoldable pub assert_public_https_url :
      List Text → (Text → Option (List Text)) → Text → Result Text
  assert_public_https_url suffixes lookup raw_url =
      after_parse lookup (parse_safe_https_url suffixes raw_url)
