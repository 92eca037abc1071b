-- ===== src/Search/RoundTrip.antt =====
-- The segments of a text, put together again, are the text.
use startup.Common.{
  ℕ, zero, suc, ◌+◌, ◌-◌, ◌≤◌, ◌<◌, ◌≡◌, refl, sym, ap, ◌∙◌, true, some, List, [], ◌∷◌, ◌++◌, arith,
  ltb, ltb→lt, length, drop, all, Bool-cases, Option-cases, All, Text, join, take-append-drop,
  drop-drop, drop-of_le, sort-All, inl, inr,
}
use mathlib.Core.Path.{subst}
use mathlib.Core.Option.{some-injective}
use mathlib.Core.List.{append-nil, append_assoc}
use startup.Search.Keywords.{keyword_category}
use startup.Search.Tokenize.{
  Segment, SegmentType, text, tag, longer, sorted, slice, is_hit, first_hit, text_end, scan,
  append_last, push, merge, tokenize, segments_to_text, text_segment, tag_segment,
}

abbrev pub HasLength : Text × Text → Type 0
HasLength entry = 0 < length entry.0

all-HasLength :
    (es : List (Text × Text)) → all (λ e. ltb 0 (length e.0)) es ≡ true → All HasLength es
all-HasLength [] h = tt
all-HasLength (e ∷ es) h = elim (Bool-cases (ltb 0 (length e.0))) [
  | inl p ↦ (ltb→lt 0 (length e.0) p, all-HasLength es (rw p at h))
  | inr p ↦ cc
]

-- No keyword of the table is empty, so every tag moves the scan on.
pub sorted-HasLength : All HasLength sorted
unfolding sorted
sorted-HasLength =
    sort-All longer HasLength keyword_category
      (all-HasLength keyword_category (unfold keyword_category in refl))

module _ {ℓ} (P : Text × Text → Type ℓ) (content lower : Text) where
  pub first_hit-All :
      (i : ℕ) (es : List (Text × Text)) (e : Text × Text)
      → All P es
      → first_hit content lower i es ≡ some e
      → P e
  unfolding first_hit
  first_hit-All i [] e h q = cc
  first_hit-All i (x ∷ es) e (p, h) q = elim (Bool-cases (is_hit content lower i x.0)) [
    | inl hit ↦ subst P (some-injective _ _ (rw hit at q)) p
    | inr miss ↦ first_hit-All i es e h (rw miss at q)
  ]

segments_to_text-cons :
    (s : Segment) (r : List Segment) → segments_to_text (s ∷ r) ≡ s.value ++ segments_to_text r
unfolding segments_to_text join
segments_to_text-cons s [] = sym (append-nil s.value)
segments_to_text-cons s (t ∷ r) = refl

segments_to_text-nil : segments_to_text [] ≡ []
unfolding segments_to_text join
segments_to_text-nil = refl

append_last-text :
    (p q : SegmentType) (x s : Segment)
    → segments_to_text (append_last p q x s) ≡ x.value ++ s.value
unfolding append_last segments_to_text join
append_last-text text text x s = refl
append_last-text text tag x s = refl
append_last-text tag q x s = refl

push-text :
    (out : List Segment) (s : Segment)
    → segments_to_text (push out s) ≡ segments_to_text out ++ s.value
unfolding push segments_to_text
push-text [] s = segments_to_text-cons s [] ∙ append-nil s.value
push-text (x ∷ []) s =
    append_last-text x.type s.type x s
    ∙ ap (λ (t : Text). t ++ s.value) (sym (append-nil x.value) ∙ sym (segments_to_text-cons x []))
push-text (x ∷ y ∷ r) s =
    segments_to_text-cons x (push (y ∷ r) s)
    ∙ ap (λ (t : Text). x.value ++ t) (push-text (y ∷ r) s)
    ∙ sym (append_assoc x.value (segments_to_text (y ∷ r)) s.value)
    ∙ ap (λ (t : Text). t ++ s.value) (sym (segments_to_text-cons x (y ∷ r)))

pub merge-text :
    (out segs : List Segment)
    → segments_to_text (merge out segs) ≡ segments_to_text out ++ segments_to_text segs
unfolding merge segments_to_text
merge-text out [] = sym (append-nil (segments_to_text out))
merge-text out (s ∷ r) =
    merge-text (push out s) r
    ∙ ap (λ (t : Text). t ++ segments_to_text r) (push-text out s)
    ∙ append_assoc (segments_to_text out) s.value (segments_to_text r)
    ∙ ap (λ (t : Text). segments_to_text out ++ t) (sym (segments_to_text-cons s r))

module _ (content lower : Text) where
  pub text_end-ge : (fuel j : ℕ) → j ≤ text_end content lower fuel j
  unfolding text_end
  text_end-ge zero j = omega arith
  text_end-ge (suc fuel) j = ground (arith, text_end-ge fuel (j + 1))

  -- A segment that ends at `j`, and what follows from there, are what follows from `i`.
  slice-append-drop : (i j : ℕ) → i ≤ j → slice content i j ++ drop j content ≡ drop i content
  slice-append-drop i j h =
      let e : i + (j - i) ≡ j = omega arith in
      ap (λ (t : Text). slice content i j ++ t)
        (ap (λ (k : ℕ). drop k content) (sym e) ∙ sym (drop-drop (j - i) i content))
      ∙ take-append-drop (j - i) (drop i content)

  -- With at least one unit of fuel for each unit of text that is left, the scan reaches the end.
  pub scan-text :
      (fuel i : ℕ)
      → length content ≤ fuel + i
      → segments_to_text (scan content lower fuel i) ≡ drop i content
  unfolding scan
  scan-text zero i h = segments_to_text-nil ∙ sym (drop-of_le i content (omega arith))
  scan-text (suc fuel) i h = elim (Bool-cases (ltb i (length content))) [
    | inr done ↦ rw (done, scan) (segments_to_text-nil ∙ sym (drop-of_le i content (ground arith)))
    | inl more ↦
        rw (more, scan)
          (elim (Option-cases (first_hit content lower i sorted)) [
            | inl e ↦
                let j = text_end content lower (length content) (i + 1) in
                let le = text_end-ge (length content) (i + 1) in
                rw (e, scan)
                  (segments_to_text-cons (text_segment (slice content i j))
                      (scan content lower fuel j)
                    ∙ ap (λ (t : Text). slice content i j ++ t) (scan-text fuel j (omega arith))
                    ∙ slice-append-drop i j (omega arith))
            | inr (hit, e) ↦
                let j = i + length hit.0 in
                let le = first_hit-All HasLength content lower i sorted hit sorted-HasLength e in
                rw (e, scan)
                  (segments_to_text-cons (tag_segment (slice content i j) hit.1)
                      (scan content lower fuel j)
                    ∙ ap (λ (t : Text). slice content i j ++ t) (scan-text fuel j (omega arith))
                    ∙ slice-append-drop i j (omega arith))
          ])
  ]

-- Putting the segments of `tokenize` together gives the text back, whatever `toLowerCase` does,
-- also where it changes the length of the text.
pub segments_to_text-tokenize :
    (to_lower : Text → Text) (content : Text)
    → segments_to_text (tokenize to_lower content) ≡ content
unfolding tokenize
segments_to_text-tokenize to_lower [] = segments_to_text-nil
segments_to_text-tokenize to_lower (c ∷ s) =
    merge-text [] (scan (c ∷ s) (to_lower (c ∷ s)) (length (c ∷ s)) 0)
    ∙ ap (λ (t : Text). t ++ segments_to_text (scan (c ∷ s) (to_lower (c ∷ s)) (length (c ∷ s)) 0))
        segments_to_text-nil
    ∙ scan-text (c ∷ s) (to_lower (c ∷ s)) (length (c ∷ s)) 0 (omega arith)
