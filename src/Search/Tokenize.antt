-- ===== src/Search/Tokenize.antt =====
-- `tokenize` and `segmentsToText` of apps/web/src/lib/nlpSearch.ts. `toLowerCase` is a parameter:
-- it may change the length of a text, and nothing here assumes that it does not.
use startup.Common.{
  ℕ, zero, suc, ◌+◌, ◌-◌, Bool, true, false, not, ◌&&◌, Option, none, some, List, [], ◌∷◌, ◌++◌,
  map, ltb, ◌==◌, if◌then◌else◌, ◌or_else◌, length, get_elem?, take, drop, any, Text, is_blank,
  starts_with, join, is_alnum, sort,
}
use startup.Search.Keywords.{keyword_category}

pub data SegmentType : Type 0 where
  text tag : SegmentType

pub record Segment : Type 0 where
  pub type : SegmentType
  pub value : Text
  pub cat : Option Text

abbrev pub text_segment : Text → Segment
text_segment value = record { type = text; value = value; cat = none }

abbrev pub tag_segment : Text → Text → Segment
tag_segment value cat = record { type = tag; value = value; cat = some cat }

abbrev pub longer : Text × Text → Text × Text → Bool
longer y x = ltb (length x.0) (length y.0)

-- The table, the longest keywords first.
unfoldable pub sorted : List (Text × Text)
sorted = sort longer keyword_category

-- `text.slice(i, j)` where i ≤ j.
abbrev pub slice : Text → ℕ → ℕ → Text
slice s i j = take (j - i) (drop i s)

abbrev pub space : ℕ
space = 32

module _ (content lower : Text) where
  -- The keyword stands at `i`, with no letter or digit on either side.
  unfoldable pub is_hit : ℕ → Text → Bool
  is_hit i keyword =
      let before = if i == 0 then space else (get_elem? content (i - 1) or_else space) in
      let after = get_elem? content (i + length keyword) or_else space in
      starts_with keyword (drop i lower) && (not (is_alnum before) && not (is_alnum after))

  unfoldable pub first_hit : ℕ → List (Text × Text) → Option (Text × Text)
  first_hit i [] = none
  first_hit i (entry ∷ rest) = if is_hit i entry.0 then some entry else first_hit i rest

  -- The inner `while`: the next place from `j` on where a keyword stands, or the end.
  unfoldable pub text_end : ℕ → ℕ → ℕ
  text_end zero j = j
  text_end (suc fuel) j =
      let next = text_end fuel (j + 1) in
      if ltb j (length content)
      then (if any (λ entry. is_hit j entry.0) sorted then j else next)
      else j

  -- The outer `while`, from `i` on.
  unfoldable pub scan : ℕ → ℕ → List Segment
  scan zero i = []
  scan (suc fuel) i = elim (ltb i (length content)) [
    | false ↦ []
    | true ↦ elim (first_hit i sorted) [
      | some (keyword, cat) ↦
          tag_segment (slice content i (i + length keyword)) cat ∷ scan fuel (i + length keyword)
      | none ↦
          text_segment (slice content i (text_end (length content) (i + 1)))
          ∷ scan fuel (text_end (length content) (i + 1))
    ]
  ]

-- `out.push`, or `last.value += s.value` for two texts in a row.
unfoldable pub append_last : SegmentType → SegmentType → Segment → Segment → List Segment
append_last text text last s = record last { value = last.value ++ s.value } ∷ []
append_last _ _ last s = last ∷ s ∷ []

unfoldable pub push : List Segment → Segment → List Segment
push [] s = s ∷ []
push (x ∷ []) s = append_last x.type s.type x s
push (x ∷ y ∷ r) s = x ∷ push (y ∷ r) s

unfoldable pub merge : List Segment → List Segment → List Segment
merge out [] = out
merge out (s ∷ r) = merge (push out s) r

unfoldable pub tokenize : (Text → Text) → Text → List Segment
tokenize to_lower content =
    if is_blank content then [] else merge [] (scan content (to_lower content) (length content) 0)

unfoldable pub segments_to_text : List Segment → Text
unfolding join
segments_to_text segs = join [] (map (λ s. s.value) segs)
