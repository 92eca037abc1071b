-- ===== src/SafeUrl/Laws.antt =====
-- What the URLs are that leave these functions.
use startup.Common.{
  ℕ, ◌≡◌, ◌≢◌, ◌⊎◌, refl, sym, true, false, Option, none, some, [], ◌∷◌, ◌++◌, arith, ◌==◌, Text,
  codes, is_blank, text_eq, text_eq_iff, trim, is_space, contains, Bool-cases, Option-cases, inl,
  inr, All, All-append,
}
use mathlib.Core.Path.{subst}
use mathlib.Core.Option.{some-injective}
use startup.Env.{Url}
use startup.SafeUrl.{
  safe_external_hosts, is_data_image, remove_spaces, replace_unit, escape, css_url, https_only,
  safe_https_url, safe_image_url, css_of, safe_css_image_url, safe_output_css_image_url, github_of,
  safe_github_url,
}

-- A unit that ends neither a quoted CSS string nor begins an escape in it.
abbrev pub IsQuotable : ℕ → Type 0
IsQuotable c = (c ≢ 34) × (c ≢ 92)

abbrev pub IsNot : ℕ → ℕ → Type 0
IsNot d c = c ≢ d

replace_unit-IsNot :
    (from : ℕ) (to s : Text) → All (IsNot from) to → All (IsNot from) (replace_unit from to s)
unfolding replace_unit
replace_unit-IsNot from to [] h = tt
replace_unit-IsNot from to (c ∷ s) h = elim (Bool-cases (c == from)) [
  | inl e ↦ rw e (All-append (IsNot from) to _ h (replace_unit-IsNot from to s h))
  | inr e ↦ rw e (ground arith, replace_unit-IsNot from to s h)
]

-- A replacement that brings in no `d` leaves a text without one.
replace_unit-keeps :
    (d from : ℕ) (to s : Text)
    → All (IsNot d) to
    → All (IsNot d) s
    → All (IsNot d) (replace_unit from to s)
unfolding replace_unit
replace_unit-keeps d from to [] h k = tt
replace_unit-keeps d from to (c ∷ s) h (p, k) = elim (Bool-cases (c == from)) [
  | inl e ↦ rw e (All-append (IsNot d) to _ h (replace_unit-keeps d from to s h k))
  | inr e ↦ rw e (p, replace_unit-keeps d from to s h k)
]

All-both : (s : Text) → All (IsNot 34) s → All (IsNot 92) s → All IsQuotable s
All-both [] h k = tt
All-both (c ∷ s) (p, h) (q, k) = ((p, q), All-both s h k)

escape-IsQuotable : (url : Text) → All IsQuotable (escape url)
unfolding escape codes
escape-IsQuotable url = All-both _ (replace_unit-IsNot 34 (codes "%22") _ (omega arith)) (
    replace_unit-keeps 92 34 (codes "%22") _ (omega arith)
      (replace_unit-IsNot 92 (codes "%5C") url (omega arith)))

-- `url("…")` round a text that can stand between the quotes.
abbrev pub IsCssUrl : Text → Type 0
IsCssUrl r =
    (inner : Text) × (r ≡ codes "url(" ++ (34 ∷ inner ++ (34 ∷ codes ")"))) × All IsQuotable inner

module _ (parse_url : Text → Option Url) where
  css_of-IsCssUrl : (url : Option Text) (r : Text) → css_of parse_url url ≡ some r → IsCssUrl r
  unfolding css_of css_url
  css_of-IsCssUrl none r h = cc
  css_of-IsCssUrl (some url) r h = elim (Bool-cases (is_blank url)) [
    | inl e ↦ cc (rw e at h)
    | inr e ↦ (escape url, ground arith, escape-IsQuotable url)
  ]

  -- What `safeCssImageUrl` and `safeOutputCssImageUrl` return is `url("…")`, with no quote and no
  -- backslash between the quotes.
  pub css-IsCssUrl :
      (value : Option Text) (r : Text)
      → (safe_css_image_url parse_url value ≡ some r)
        ⊎ (safe_output_css_image_url parse_url value ≡ some r)
      → IsCssUrl r
  unfolding safe_css_image_url safe_output_css_image_url
  css-IsCssUrl value r (inl h) = css_of-IsCssUrl (safe_https_url parse_url value) r h
  css-IsCssUrl value r (inr h) = css_of-IsCssUrl (safe_image_url parse_url value) r h

  -- `new URL` of a URL's `href` gives the same URL.
  abbrev pub Reparses : Type 0
  Reparses = (s : Text) (url : Url) → parse_url s ≡ some url → parse_url url.href ≡ some url

  abbrev pub IsHttps : Text → Type 0
  IsHttps r =
      (url : Url) × (parse_url r ≡ some url) × (url.href ≡ r) × (url.protocol ≡ codes "https:")

  https_only-IsHttps :
      (s r : Text) (parsed : Option Url)
      → Reparses
      → parse_url s ≡ parsed
      → https_only parse_url parsed ≡ some r
      → IsHttps r
  unfolding https_only
  https_only-IsHttps s r none re e h = cc
  https_only-IsHttps s r (some url) re e h =
      elim (Bool-cases (text_eq url.protocol (codes "https:"))) [
        | inr no_https ↦ cc (rw no_https at h)
        | inl https ↦ (
          url,
          ground (arith, re s url e),
          ground arith,
          (text_eq_iff url.protocol (codes "https:")).0 https,
        )
      ]

  pub safe_https_url-IsHttps :
      (value : Option Text) (r : Text)
      → Reparses
      → safe_https_url parse_url value ≡ some r
      → IsHttps r
  unfolding safe_https_url
  safe_https_url-IsHttps none r re h = cc
  safe_https_url-IsHttps (some value) r re h = elim (Bool-cases (is_blank value)) [
    | inl e ↦ cc (rw e at h)
    | inr e ↦ https_only-IsHttps value r (parse_url value) re refl (rw e at h)
  ]

  remove_spaces-All : (s : Text) → All (λ c. is_space c ≡ false) (remove_spaces s)
  unfolding remove_spaces
  remove_spaces-All [] = tt
  remove_spaces-All (c ∷ s) = elim (Bool-cases (is_space c)) [
    | inl e ↦ rw e (remove_spaces-All s)
    | inr e ↦ rw e (e, remove_spaces-All s)
  ]

  abbrev pub IsInlineImage : Option Text → Text → Type 0
  IsInlineImage value r =
      (given : Text) × (value ≡ some given)
      × (is_data_image (trim given) ≡ true)
      × (r ≡ remove_spaces (trim given))
      × All (λ c. is_space c ≡ false) r

  -- `safeImageUrl` returns an https URL, or the given text without its white space where that is an
  -- inline PNG, JPEG, GIF or WebP image in base 64. It is assumed that `new URL` gives a URL for the
  -- text of that URL again.
  pub safe_image_url_sound :
      (value : Option Text) (r : Text)
      → Reparses
      → safe_image_url parse_url value ≡ some r
      → IsHttps r ⊎ IsInlineImage value r
  unfolding safe_image_url
  safe_image_url_sound none r re h = cc
  safe_image_url_sound (some value) r re h = elim (Bool-cases (is_blank value)) [
    | inl e ↦ cc (rw e at h)
    | inr e ↦ elim (Bool-cases (is_data_image (trim value))) [
      | inr no_image ↦ inl (safe_https_url-IsHttps (some (trim value)) r re (ground arith))
      | inl image ↦
          let same : remove_spaces (trim value) ≡ r = ground arith in
          inr (value, refl, image, sym same, rw (← same) (remove_spaces-All (trim value)))
    ]
  ]

  module _ (to_lower : Text → Text) where
    -- `safeGithubUrl` never throws, and a URL that it returns is an https URL on one of the two
    -- hosts of GitHub. It is assumed that `new URL` gives a URL for the text of that URL again.
    pub safe_github_url_sound :
        (value : Option Text)
        → Reparses
        → (result : Option Text) × (safe_github_url parse_url to_lower value ≡ some result)
          × ((r : Text)
              → result ≡ some r
              → (url : Url) × (parse_url r ≡ some url)
                × (url.protocol ≡ codes "https:")
                × (contains safe_external_hosts (to_lower url.hostname) ≡ true))
    unfolding safe_github_url github_of
    safe_github_url_sound value re = elim (Option-cases (safe_https_url parse_url value)) [
      | inl e ↦ (none, ground arith, λ r h. cc)
      | inr (u, e) ↦ elim (Bool-cases (is_blank u)) [
        | inl blank ↦ (none, ground arith, λ r h. cc)
        | inr full ↦
            let (url, parsed, href, https) = safe_https_url-IsHttps value u re e in
            elim (Bool-cases (contains safe_external_hosts (to_lower url.hostname))) [
              | inl listed ↦ (
                some url.href,
                ground arith,
                λ r h.
                    let q : url.href ≡ r = some-injective _ _ h in
                    let p : parse_url url.href ≡ some url = rw href parsed in
                    (url, subst (λ (x : Text). parse_url x ≡ some url) q p, https, listed),
              )
              | inr other ↦ (none, ground arith, λ r h. cc)
            ]
      ]
    ]
