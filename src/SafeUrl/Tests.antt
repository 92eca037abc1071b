-- ===== src/SafeUrl/Tests.antt =====
-- The theorems on URLs at concrete inputs.
use startup.Common.{
  ◌≡◌, ◌⊎◌, refl, inl, inr, none, some, Option, Text, codes, true, trim, text_eq, contains,
  is_space, is_alnum, is_upper, Bool-cases, if◌then◌else◌, ascii_lower,
}
use mathlib.Core.Path.{subst}
use mathlib.Core.Option.{some-injective}
use startup.Env.{Url}
use startup.SafeUrl.{
  safe_css_image_url, safe_output_css_image_url, safe_https_url, safe_image_url, safe_github_url,
  is_data_image, is_payload, remove_spaces, css_url, safe_external_hosts,
}
use startup.SafeUrl.Laws.{
  IsCssUrl, css-IsCssUrl, Reparses, IsHttps, IsInlineImage, safe_image_url_sound,
  safe_github_url_sound,
}

abbrev repository : Url
repository = record {
  href = codes "https://github.com/ada/tool";
  protocol = codes "https:";
  hostname = codes "github.com";
}

-- Only the repository's URL parses.
abbrev parse : Text → Option Url
parse s = if text_eq s repository.href then some repository else none

parse-Reparses : Reparses parse
unfolding text_eq codes
parse-Reparses s url h = elim (Bool-cases (text_eq s repository.href)) [
  | inl e ↦
      let q : repository ≡ url = some-injective _ _ (rw e at h) in
      subst (λ (u : Url). parse u.href ≡ some u) q refl
  | inr e ↦ cc (rw e at h)
]

image_test :
    safe_output_css_image_url parse (some (codes "data:image/png;base64,QUJD"))
    ≡ some (css_url (codes "data:image/png;base64,QUJD"))
unfolding safe_output_css_image_url safe_image_url is_data_image is_payload remove_spaces codes trim
    is_space is_alnum
image_test = refl

css-IsCssUrl_example : IsCssUrl (css_url repository.href)
unfolding safe_css_image_url safe_https_url text_eq codes
css-IsCssUrl_example =
    css-IsCssUrl parse (some repository.href) (css_url repository.href) (inl refl)

safe_image_url_sound_example :
    IsHttps parse repository.href ⊎ IsInlineImage parse (some repository.href) repository.href
unfolding safe_image_url safe_https_url is_data_image text_eq codes trim is_space is_upper
safe_image_url_sound_example =
    safe_image_url_sound parse (some repository.href) repository.href parse-Reparses refl

safe_github_url_sound_example :
    (result : Option Text) × (safe_github_url parse ascii_lower (some repository.href)
      ≡ some result)
    × ((r : Text)
        → result ≡ some r
        → (url : Url) × (parse r ≡ some url)
          × (url.protocol ≡ codes "https:")
          × (contains safe_external_hosts (ascii_lower url.hostname) ≡ true))
safe_github_url_sound_example =
    safe_github_url_sound parse ascii_lower (some repository.href) parse-Reparses
