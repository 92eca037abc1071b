-- ===== src/Submission/NameLaws.antt =====
-- No markup is left in a sanitized name.
use startup.Common.{
  ◌≡◌, ◌≢◌, Bool, true, false, ◌&&◌, Option, none, some, [], ◌∷◌, ◌==◌, arith, any, All, Bool-cases,
  inl, inr, Text, is_blank, is_space, trim, trim_start, trim_end,
}
use startup.Submission.Names.{
  opening, closing, strip_tags, skip_tag, is_entity, replace_entities, skip_entity, collapse,
  sanitize_name,
}

abbrev pub NoClosing : Text → Type 0
NoClosing s = All (λ c. c ≢ closing) s

-- No `<` has a `>` behind it.
abbrev pub NoTag : Text → Type 0
NoTag [] = Unit
NoTag (c ∷ s) = (c ≡ opening → NoClosing s) × NoTag s

any-NoClosing : (s : Text) → any (λ d. d == closing) s ≡ false → NoClosing s
any-NoClosing [] h = tt
any-NoClosing (c ∷ s) h = (ground arith, any-NoClosing s (ground arith))

mutual
  unfolding strip_tags skip_tag

  strip_tags-NoClosing : (s : Text) → NoClosing s → NoClosing (strip_tags s)
  strip_tags-NoClosing [] h = tt
  strip_tags-NoClosing (c ∷ s) (p, h) =
      elim (Bool-cases (c == opening && any (λ d. d == closing) s)) [
        | inl e ↦ rw (e, strip_tags) (skip_tag-NoClosing s h)
        | inr e ↦ rw (e, strip_tags) (p, strip_tags-NoClosing s h)
      ]

  skip_tag-NoClosing : (s : Text) → NoClosing s → NoClosing (skip_tag s)
  skip_tag-NoClosing [] h = tt
  skip_tag-NoClosing (c ∷ s) (p, h) = elim (Bool-cases (c == closing)) [
    | inl e ↦ rw (e, skip_tag) (strip_tags-NoClosing s h)
    | inr e ↦ rw (e, skip_tag) (skip_tag-NoClosing s h)
  ]

mutual
  unfolding strip_tags skip_tag

  strip_tags-NoTag : (s : Text) → NoTag (strip_tags s)
  strip_tags-NoTag [] = tt
  strip_tags-NoTag (c ∷ s) = elim (Bool-cases (c == opening && any (λ d. d == closing) s)) [
    | inl e ↦ rw (e, strip_tags) (skip_tag-NoTag s)
    | inr e ↦
        rw (e, strip_tags)
          (λ h. strip_tags-NoClosing s (any-NoClosing s (ground arith)), strip_tags-NoTag s)
  ]

  skip_tag-NoTag : (s : Text) → NoTag (skip_tag s)
  skip_tag-NoTag [] = tt
  skip_tag-NoTag (c ∷ s) = elim (Bool-cases (c == closing)) [
    | inl e ↦ rw (e, skip_tag) (strip_tags-NoTag s)
    | inr e ↦ rw (e, skip_tag) (skip_tag-NoTag s)
  ]

mutual
  unfolding replace_entities skip_entity

  replace_entities-NoClosing : (s : Text) → NoClosing s → NoClosing (replace_entities s)
  replace_entities-NoClosing [] h = tt
  replace_entities-NoClosing (c ∷ s) (p, h) = elim (Bool-cases (c == b'&' && is_entity s)) [
    | inl e ↦ rw (e, replace_entities) (omega arith, skip_entity-NoClosing s h)
    | inr e ↦ rw (e, replace_entities) (p, replace_entities-NoClosing s h)
  ]

  skip_entity-NoClosing : (s : Text) → NoClosing s → NoClosing (skip_entity s)
  skip_entity-NoClosing [] h = tt
  skip_entity-NoClosing (c ∷ s) (p, h) = elim (Bool-cases (c == b';')) [
    | inl e ↦ rw (e, skip_entity) (replace_entities-NoClosing s h)
    | inr e ↦ rw (e, skip_entity) (skip_entity-NoClosing s h)
  ]

mutual
  unfolding replace_entities skip_entity

  replace_entities-NoTag : (s : Text) → NoTag s → NoTag (replace_entities s)
  replace_entities-NoTag [] h = tt
  replace_entities-NoTag (c ∷ s) (p, h) = elim (Bool-cases (c == b'&' && is_entity s)) [
    | inl e ↦ rw (e, replace_entities) (λ q. absurd (omega arith), skip_entity-NoTag s h)
    | inr e ↦
        rw (e, replace_entities)
          (λ q. replace_entities-NoClosing s (p q), replace_entities-NoTag s h)
  ]

  skip_entity-NoTag : (s : Text) → NoTag s → NoTag (skip_entity s)
  skip_entity-NoTag [] h = tt
  skip_entity-NoTag (c ∷ s) (p, h) = elim (Bool-cases (c == b';')) [
    | inl e ↦ rw (e, skip_entity) (replace_entities-NoTag s h)
    | inr e ↦ rw (e, skip_entity) (skip_entity-NoTag s h)
  ]

collapse-NoClosing : (b : Bool) (s : Text) → NoClosing s → NoClosing (collapse b s)
unfolding collapse
collapse-NoClosing b [] h = tt
collapse-NoClosing true (c ∷ s) (p, h) = elim (Bool-cases (is_space c)) [
  | inl e ↦ rw (e, collapse) (collapse-NoClosing true s h)
  | inr e ↦ rw (e, collapse) (p, collapse-NoClosing false s h)
]
collapse-NoClosing false (c ∷ s) (p, h) = elim (Bool-cases (is_space c)) [
  | inl e ↦ rw (e, collapse) (omega arith, collapse-NoClosing true s h)
  | inr e ↦ rw (e, collapse) (p, collapse-NoClosing false s h)
]

collapse-NoTag : (b : Bool) (s : Text) → NoTag s → NoTag (collapse b s)
unfolding collapse
collapse-NoTag b [] h = tt
collapse-NoTag true (c ∷ s) (p, h) = elim (Bool-cases (is_space c)) [
  | inl e ↦ rw (e, collapse) (collapse-NoTag true s h)
  | inr e ↦ rw (e, collapse) (λ q. collapse-NoClosing false s (p q), collapse-NoTag false s h)
]
collapse-NoTag false (c ∷ s) (p, h) = elim (Bool-cases (is_space c)) [
  | inl e ↦ rw (e, collapse) (λ q. absurd (omega arith), collapse-NoTag true s h)
  | inr e ↦ rw (e, collapse) (λ q. collapse-NoClosing false s (p q), collapse-NoTag false s h)
]

trim_start-NoTag : (s : Text) → NoTag s → NoTag (trim_start s)
unfolding trim_start
trim_start-NoTag [] h = tt
trim_start-NoTag (c ∷ s) (p, h) = elim (Bool-cases (is_space c)) [
  | inl e ↦ rw (e, trim_start) (trim_start-NoTag s h)
  | inr e ↦ rw (e, trim_start) (p, h)
]

trim_end-NoClosing : (s : Text) → NoClosing s → NoClosing (trim_end s)
unfolding trim_end
trim_end-NoClosing [] h = tt
trim_end-NoClosing (c ∷ s) (p, h) = elim (Bool-cases (is_space c && is_blank (trim_end s))) [
  | inl e ↦ rw (e, trim_end) tt
  | inr e ↦ rw (e, trim_end) (p, trim_end-NoClosing s h)
]

trim_end-NoTag : (s : Text) → NoTag s → NoTag (trim_end s)
unfolding trim_end
trim_end-NoTag [] h = tt
trim_end-NoTag (c ∷ s) (p, h) = elim (Bool-cases (is_space c && is_blank (trim_end s))) [
  | inl e ↦ rw (e, trim_end) tt
  | inr e ↦ rw (e, trim_end) (λ q. trim_end-NoClosing s (p q), trim_end-NoTag s h)
]

-- In a sanitized name no `<` has a `>` behind it: whatever the markup was, also broken or nested,
-- nothing that reads as a tag is left or put together.
pub sanitize_name-NoTag : (raw : Option Text) → NoTag (sanitize_name raw)
unfolding sanitize_name trim
sanitize_name-NoTag none = tt
sanitize_name-NoTag (some raw) = elim (Bool-cases (is_blank raw)) [
  | inl e ↦ rw (e, sanitize_name) tt
  | inr e ↦
      rw (e, sanitize_name)
        (trim_end-NoTag _ (
          trim_start-NoTag _ (
            collapse-NoTag false _
              (replace_entities-NoTag (strip_tags raw) (strip_tags-NoTag raw)))))
]
