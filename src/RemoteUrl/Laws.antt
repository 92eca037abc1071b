-- ===== src/RemoteUrl/Laws.antt =====
-- What the server may fetch.
use startup.Common.{
  ◌≡◌, ◌⊎◌, refl, sym, if◌then◌else◌, Bool, true, false, not, ◌&&◌, ◌||◌, Option, none, some, List,
  [], ◌∷◌, any, All, arith, Bool-cases, Option-cases, inl, inr, Text, codes, text_eq, text_eq_iff,
  is_blank,
}
use startup.RemoteUrl.{Url, Platform, Family, no_ip, ipv4, ipv6}
use startup.RemoteUrl.Addresses.{is_public_ip_address}
use startup.RemoteUrl.Check.{
  Result, UnsafeUrl, ok, unsafe, without_brackets, is_local_host, is_allowed_host, is_ipv6, host_of,
  check_url, parse_safe_https_url, check_addresses, check_host, after_parse,
  assert_public_https_url,
}

ok-injective : {A : Type 0} {x y : A} → ok x ≡ ok y → x ≡ y
ok-injective e = ground (arith, e)

-- A test that is passed on the way to a result.
passed :
    {A : Type 0} (b : Bool) (e : UnsafeUrl) (r : Result A) (x : A)
    → (if b then unsafe e else r) ≡ ok x
    → (b ≡ false) × (r ≡ ok x)
passed true e r x h = cc
passed false e r x h = (refl, h)

module _ (js : Platform) (suffixes : List Text) (lookup : Text → Option (List Text)) where
  abbrev pub IsPublic : Text → Type 0
  IsPublic address = is_public_ip_address js address ≡ true

  -- The host is a public address, or all the addresses that the DNS gives for it are public.
  abbrev pub IsReached : Text → Type 0
  IsReached hostname =
      IsPublic hostname
      ⊎ ((first : Text) × (rest : List Text) × (lookup hostname ≡ some (first ∷ rest))
          × All IsPublic (first ∷ rest))

  pub record IsSafe (url : Url) : Type 0 where
    pub protocol : url.protocol ≡ codes "https:"
    pub no_username : is_blank url.username ≡ true
    pub no_password : is_blank url.password ≡ true
    pub port : (is_blank url.port ≡ true) ⊎ (url.port ≡ codes "443")
    pub not_local : is_local_host (host_of js url) ≡ false
    pub allowed : is_allowed_host suffixes (host_of js url) ≡ true

  -- What is fetched is the URL, or the URL with its host in lower case and without a last dot.
  abbrev pub IsForm : Url → Url → Type 0
  IsForm url final = (final ≡ url) ⊎ (final ≡ js.set_hostname (host_of js url) url)

  check_url-IsSafe :
      (url final : Url) → check_url js suffixes url ≡ ok final → IsSafe url × IsForm url final
  unfolding check_url
  check_url-IsSafe url final h =
      let (e1, h1) = passed (not (text_eq url.protocol (codes "https:"))) _ _ final h in
      let (e2, h2) =
        passed (not (is_blank url.username) || not (is_blank url.password)) _ _ final h1 in
      let (e3, h3) =
        passed (not (is_blank url.port) && not (text_eq url.port (codes "443"))) _ _ final h2 in
      let (e4, h4) = passed (is_local_host (host_of js url)) _ _ final h3 in
      let (e5, h5) = passed (not (is_allowed_host suffixes (host_of js url))) _ _ final h4 in
      (
        record {
          protocol = (text_eq_iff url.protocol (codes "https:")).0 (ground arith);
          no_username = ground arith;
          no_password = ground arith;
          port = port_of (is_blank url.port) url.port refl e3;
          not_local = e4;
          allowed = ground arith;
        },
        form_of (is_ipv6 (js.is_ip (host_of js url))) url final (ok-injective h5),
      )
    where
      port_of :
          (b : Bool) (port : Text)
          → is_blank port ≡ b
          → (not (is_blank port) && not (text_eq port (codes "443"))) ≡ false
          → (is_blank port ≡ true) ⊎ (port ≡ codes "443")
      port_of true port e h = inl e
      port_of false port e h = inr ((text_eq_iff port (codes "443")).0 (ground arith))

      form_of :
          (b : Bool) (url final : Url)
          → (if b then url else js.set_hostname (host_of js url) url) ≡ final
          → IsForm url final
      form_of true url final e = inl (sym e)
      form_of false url final e = inr (sym e)

  All-IsPublic :
      (addresses : List Text)
      → any (λ address. not (is_public_ip_address js address)) addresses ≡ false
      → All IsPublic addresses
  All-IsPublic [] h = tt
  All-IsPublic (a ∷ rest) h = (ground arith, All-IsPublic rest (ground arith))

  check_addresses-ok :
      (answer : Option (List Text)) (url : Url) (text : Text)
      → check_addresses js answer url ≡ ok text
      → (first : Text) × (rest : List Text) × (answer ≡ some (first ∷ rest))
        × All IsPublic (first ∷ rest)
        × (js.url_text url ≡ text)
  unfolding check_addresses
  check_addresses-ok none url text h = cc
  check_addresses-ok (some []) url text h = cc
  check_addresses-ok (some (a ∷ rest)) url text h =
      elim (Bool-cases (any (λ address. not (is_public_ip_address js address)) (a ∷ rest))) [
        | inl e ↦ cc (rw (e, check_addresses) at h)
        | inr e ↦
            (a, rest, refl, All-IsPublic (a ∷ rest) e, ok-injective (rw (e, check_addresses) at h))
      ]

  literal-ok :
      (url : Url) (hostname text : Text) (family : Family)
      → check_host js lookup url hostname family ≡ ok text
      → IsReached hostname × (js.url_text url ≡ text)
  unfolding check_host
  literal-ok url hostname text no_ip h =
      let (first, rest, found, public, same) = check_addresses-ok (lookup hostname) url text h in
      (inr (first, rest, found, public), same)
  literal-ok url hostname text ipv4 h = elim (Bool-cases (is_public_ip_address js hostname)) [
    | inl e ↦ (inl e, ok-injective (rw (e, check_host) at h))
    | inr e ↦ cc (rw (e, check_host) at h)
  ]
  literal-ok url hostname text ipv6 h = elim (Bool-cases (is_public_ip_address js hostname)) [
    | inl e ↦ (inl e, ok-injective (rw (e, check_host) at h))
    | inr e ↦ cc (rw (e, check_host) at h)
  ]

  after_parse-ok :
      (parsed : Result Url) (text : Text)
      → after_parse js lookup parsed ≡ ok text
      → (final : Url) × (parsed ≡ ok final)
        × IsReached (without_brackets final.hostname)
        × (js.url_text final ≡ text)
  after_parse-ok (unsafe e) text h = cc
  after_parse-ok (ok final) text h =
      let (reached, same) = literal-ok final (without_brackets final.hostname) text _ h in
      (final, refl, reached, same)

  -- A URL that the server is told to fetch is an HTTPS URL at the standard port, without credentials,
  -- whose host is not local and has one of the suffixes, if there are any; its text is that of the URL,
  -- or of the URL with its host normalised; and the host in that text is a public IP address, or the
  -- DNS gives addresses for it, all of which are public.
  pub assert_public_https_url-IsSafe :
      (raw_url text : Text)
      → assert_public_https_url js suffixes lookup raw_url ≡ ok text
      → (url : Url) × (final : Url) × (js.parse_url raw_url ≡ some url)
        × IsSafe url
        × IsForm url final
        × (js.url_text final ≡ text)
        × IsReached (without_brackets final.hostname)
  unfolding assert_public_https_url parse_safe_https_url
  assert_public_https_url-IsSafe raw_url text h =
      let (final, parsed, reached, same) =
        after_parse-ok (parse_safe_https_url js suffixes raw_url) text h in
      elim (Option-cases (js.parse_url raw_url)) [
        | inl e ↦ cc (rw (e, parse_safe_https_url) at parsed)
        | inr (url, e) ↦
            let (safe, form) =
              check_url-IsSafe url final (rw (e, parse_safe_https_url) at parsed) in
            (url, final, e, safe, form, same, reached)
      ]
