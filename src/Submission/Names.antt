-- ===== src/Submission/Names.antt =====
-- `sanitizeName` of apps/web/src/lib/submissions.ts; its three patterns are written out.
use startup.Common.{
  ℕ, Bool, true, false, ◌&&◌, ◌||◌, Option, none, some, [], ◌∷◌, ◌==◌, if◌then◌else◌, any, Text,
  is_blank, is_space, is_alnum, trim,
}

-- The signs < and >.
abbrev pub opening : ℕ
opening = 60

abbrev pub closing : ℕ
closing = 62

-- `replace(/<[^>]*>/g, "")`: a tag begins at `<` if a `>` follows, and ends at the first.
unfoldable mutual
  pub strip_tags : Text → Text
  strip_tags [] = []
  strip_tags (c ∷ s) =
      let kept = strip_tags s in
      let cut = skip_tag s in if c == opening && any (λ d. d == closing) s then cut else c ∷ kept

  pub skip_tag : Text → Text
  skip_tag [] = []
  skip_tag (c ∷ s) =
      let kept = strip_tags s in let cut = skip_tag s in if c == closing then kept else cut

abbrev is_entity_unit : ℕ → Bool
is_entity_unit c = is_alnum c || c == b'#'

-- `[a-z0-9#]*;` from the beginning.
pub ends_entity : Text → Bool
ends_entity [] = false
ends_entity (c ∷ s) =
    let rest = ends_entity s in if c == b';' then true else is_entity_unit c && rest

-- `[a-z0-9#]+;` from the beginning.
unfoldable pub is_entity : Text → Bool
is_entity [] = false
is_entity (c ∷ s) = is_entity_unit c && ends_entity s

-- `replace(/&[a-z0-9#]+;/gi, " ")`
unfoldable mutual
  pub replace_entities : Text → Text
  replace_entities [] = []
  replace_entities (c ∷ s) =
      let kept = replace_entities s in
      let cut = skip_entity s in if c == b'&' && is_entity s then 32 ∷ cut else c ∷ kept

  pub skip_entity : Text → Text
  skip_entity [] = []
  skip_entity (c ∷ s) =
      let kept = replace_entities s in let cut = skip_entity s in if c == b';' then kept else cut

-- `replace(/\s+/g, " ")`, `before` telling whether a space goes on.
unfoldable pub collapse : Bool → Text → Text
collapse before [] = []
collapse before (c ∷ s) =
    let more = collapse true s in
    let next = collapse false s in
    if is_space c then (if before then more else 32 ∷ more) else c ∷ next

unfoldable pub sanitize_name : Option Text → Text
sanitize_name none = []
sanitize_name (some raw) =
    if is_blank raw then [] else trim (collapse false (replace_entities (strip_tags raw)))
