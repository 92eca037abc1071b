-- ===== src/Search/Tags.antt =====
-- Which segments `tokenize` returns: texts and tags take turns, and each tag is the longest keyword
-- of the table that stands where the tag begins.
use mathlib.Core.Path.{subst}
use mathlib.Core.Option.{some-injective}
use mathlib.Core.List.{append-nil, append_assoc, Memᴰ}
use startup.Common.{
  ℕ, zero, suc, ◌+◌, ◌≤◌, ◌≡◌, ◌≢◌, ◌⊎◌, refl, sym, ap, ◌∙◌, true, none, some, List, [], ◌∷◌, ◌++◌,
  arith, ltb, le→ltb, length, any, Bool-cases, Option-cases, All, All-map, All-mem, Chain, Text,
  sort-All, sort-All_of, sort-Ordered, Ordered, inl, inr,
}
use startup.Search.Keywords.{keyword_category}
use startup.Search.Tokenize.{
  Segment, SegmentType, text, tag, longer, sorted, slice, is_hit, first_hit, text_end, scan,
  append_last, push, merge, tokenize, text_segment, tag_segment,
}
use startup.Search.RoundTrip.{first_hit-All}

abbrev pub TakeTurns : Segment → Segment → Type 0
TakeTurns s t = (s.type ≡ tag) ⊎ (t.type ≡ tag)

abbrev StartsTag : List Segment → Type 0
StartsTag [] = Unit
StartsTag (s ∷ r) = s.type ≡ tag

-- Where nothing is to be joined the merging pass changes nothing.
append_last-tag :
    (p q : SegmentType) (x s : Segment) → (p ≡ tag) ⊎ (q ≡ tag) → append_last p q x s ≡ x ∷ s ∷ []
unfolding append_last
append_last-tag text text x s h = ground arith
append_last-tag text tag x s h = refl
append_last-tag tag q x s h = refl

push-append :
    (out : List Segment) (s : Segment) (r : List Segment)
    → Chain TakeTurns (out ++ s ∷ r)
    → push out s ≡ out ++ s ∷ []
unfolding push
push-append [] s r h = refl
push-append (x ∷ []) s r h = append_last-tag x.type s.type x s h.0
push-append (x ∷ y ∷ out) s r h = ap (λ (t : List Segment). x ∷ t) (push-append (y ∷ out) s r h.1)

pub merge-append :
    (out segs : List Segment) → Chain TakeTurns (out ++ segs) → merge out segs ≡ out ++ segs
unfolding merge
merge-append out [] h = sym (append-nil out)
merge-append out (s ∷ r) h =
    let e = append_assoc out (s ∷ []) r in
    rw (push-append out s r h)
      (merge-append (out ++ s ∷ []) r (subst (Chain TakeTurns) (sym e) h) ∙ e)

-- The table in the order of the scan.
abbrev NotLonger : Text × Text → Text × Text → Type 0
NotLonger x y = length y.0 ≤ length x.0

sorted-Ordered : Ordered NotLonger sorted
unfolding sorted
sorted-Ordered =
    sort-Ordered longer NotLonger (λ x a h. ground arith) (λ x a h. ground arith)
      (λ x y z p q. omega arith) keyword_category

sorted-listed : All (λ e. Memᴰ e keyword_category) sorted
unfolding sorted
sorted-listed =
    sort-All longer (λ e. Memᴰ e keyword_category) keyword_category (All-mem keyword_category)

module _ (content lower : Text) where
  -- The tag is a keyword of the table that stands at `index` as a word of its own, and no longer
  -- keyword of the table stands there.
  pub record IsKeyword (s : Segment) : Type 0 where
    pub index : ℕ
    pub entry : Text × Text
    pub listed : Memᴰ entry keyword_category
    pub value : s.value ≡ slice content index (index + length entry.0)
    pub cat : s.cat ≡ some entry.1
    pub hit : is_hit content lower index entry.0 ≡ true
    pub longest :
        All
          (λ other. is_hit content lower index other.0 ≡ true → length other.0 ≤ length entry.0)
          keyword_category

  abbrev pub IsSound : Segment → Type 0
  IsSound s = s.type ≡ tag → IsKeyword s

  any-first_hit :
      (i : ℕ) (es : List (Text × Text))
      → any (λ entry. is_hit content lower i entry.0) es ≡ true
      → first_hit content lower i es ≢ none
  unfolding first_hit
  any-first_hit i [] h = cc
  any-first_hit i (x ∷ es) h = elim (Bool-cases (is_hit content lower i x.0)) [
    | inl hit ↦ rw hit (λ e. cc)
    | inr miss ↦ rw miss (any-first_hit i es (rw miss at h))
  ]

  first_hit-is_hit :
      (i : ℕ) (es : List (Text × Text)) (e : Text × Text)
      → first_hit content lower i es ≡ some e
      → is_hit content lower i e.0 ≡ true
  unfolding first_hit
  first_hit-is_hit i [] e q = cc
  first_hit-is_hit i (x ∷ es) e q = elim (Bool-cases (is_hit content lower i x.0)) [
    | inl hit ↦
        subst (λ (y : Text × Text). is_hit content lower i y.0 ≡ true)
          (some-injective _ _ (rw hit at q)) hit
    | inr miss ↦ first_hit-is_hit i es e (rw miss at q)
  ]

  abbrev NoLongerHit : ℕ → Text × Text → Text × Text → Type 0
  NoLongerHit i e other = is_hit content lower i other.0 ≡ true → length other.0 ≤ length e.0

  first_hit-longest :
      (i : ℕ) (es : List (Text × Text)) (e : Text × Text)
      → Ordered NotLonger es
      → first_hit content lower i es ≡ some e
      → All (NoLongerHit i e) es
  unfolding first_hit
  first_hit-longest i [] e o q = tt
  first_hit-longest i (x ∷ es) e (below, o) q = elim (Bool-cases (is_hit content lower i x.0)) [
    | inl hit ↦
        subst (λ (y : Text × Text). All (NoLongerHit i y) (x ∷ es))
          (some-injective _ _ (rw hit at q))
          (λ _. omega arith, All-map (NotLonger x) (NoLongerHit i x) (λ y le _. le) es below)
    | inr miss ↦ (λ hit. cc, first_hit-longest i es e o (rw miss at q))
  ]

  tag-IsKeyword :
      (i : ℕ) (e : Text × Text)
      → first_hit content lower i sorted ≡ some e
      → IsKeyword (tag_segment (slice content i (i + length e.0)) e.1)
  unfolding sorted
  tag-IsKeyword i e q = record {
    index = i;
    entry = e;
    listed = first_hit-All (λ x. Memᴰ x keyword_category) content lower i sorted e sorted-listed q;
    value = refl;
    cat = refl;
    hit = first_hit-is_hit i sorted e q;
    longest =
        sort-All_of longer (NoLongerHit i e) keyword_category
          (first_hit-longest i sorted e sorted-Ordered q);
  }

  scan-IsSound : (fuel i : ℕ) → All IsSound (scan content lower fuel i)
  unfolding scan
  scan-IsSound zero i = tt
  scan-IsSound (suc fuel) i = elim (Bool-cases (ltb i (length content))) [
    | inr done ↦ rw (done, scan) tt
    | inl more ↦
        rw (more, scan)
          (elim (Option-cases (first_hit content lower i sorted)) [
            | inl e ↦
                rw (e, scan)
                  (λ isTag. cc, scan-IsSound fuel (text_end content lower (length content) (i + 1)))
            | inr (hit, e) ↦
                rw (e, scan) (λ _. tag-IsKeyword i hit e, scan-IsSound fuel (i + length hit.0))
          ])
  ]

  -- The inner loop stops at a keyword, or at the end.
  text_end-stops :
      (fuel j : ℕ)
      → length content ≤ fuel + j
      → (length content ≤ text_end content lower fuel j)
        ⊎ (any (λ entry. is_hit content lower (text_end content lower fuel j) entry.0) sorted
            ≡ true)
  unfolding text_end
  text_end-stops zero j h = inl (omega arith)
  text_end-stops (suc fuel) j h = elim (Bool-cases (ltb j (length content))) [
    | inr done ↦ rw done (inl (ground arith))
    | inl more ↦ elim (Bool-cases (any (λ entry. is_hit content lower j entry.0) sorted)) [
      | inl hit ↦ rw (more, hit) (inr hit)
      | inr miss ↦ rw (more, miss) (text_end-stops fuel (j + 1) (omega arith))
    ]
  ]

  scan-StartsTag :
      (fuel j : ℕ)
      → (length content ≤ j) ⊎ (any (λ entry. is_hit content lower j entry.0) sorted ≡ true)
      → StartsTag (scan content lower fuel j)
  unfolding scan
  scan-StartsTag zero j h = tt
  scan-StartsTag (suc fuel) j (inl past) = rw (le→ltb j (length content) past, scan) tt
  scan-StartsTag (suc fuel) j (inr found) = elim (Bool-cases (ltb j (length content))) [
    | inr done ↦ rw (done, scan) tt
    | inl more ↦
        rw (more, scan)
          (elim (Option-cases (first_hit content lower j sorted)) [
            | inl e ↦ absurd (any-first_hit j sorted found e)
            | inr (hit, e) ↦ rw (e, scan) refl
          ])
  ]

  Chain-text :
      (s : Segment) (r : List Segment) → StartsTag r → Chain TakeTurns r → Chain TakeTurns (s ∷ r)
  Chain-text s [] h k = tt
  Chain-text s (t ∷ r) h k = (inr h, k)

  Chain-tag :
      (s : Segment) (r : List Segment) → s.type ≡ tag → Chain TakeTurns r → Chain TakeTurns (s ∷ r)
  Chain-tag s [] h k = tt
  Chain-tag s (t ∷ r) h k = (inl h, k)

  scan-TakeTurns : (fuel i : ℕ) → Chain TakeTurns (scan content lower fuel i)
  unfolding scan
  scan-TakeTurns zero i = tt
  scan-TakeTurns (suc fuel) i = elim (Bool-cases (ltb i (length content))) [
    | inr done ↦ rw (done, scan) tt
    | inl more ↦
        rw (more, scan)
          (elim (Option-cases (first_hit content lower i sorted)) [
            | inl e ↦
                let j = text_end content lower (length content) (i + 1) in
                rw (e, scan)
                  (Chain-text (text_segment (slice content i j)) (scan content lower fuel j)
                    (scan-StartsTag fuel j (text_end-stops (length content) (i + 1) (omega arith)))
                    (scan-TakeTurns fuel j))
            | inr (hit, e) ↦
                let j = i + length hit.0 in
                rw (e, scan)
                  (Chain-tag (tag_segment (slice content i j) hit.1) (scan content lower fuel j)
                    refl (scan-TakeTurns fuel j))
          ])
  ]

-- The pass at the end of `tokenize` that joins texts in a row finds none.
tokenize-scan :
    (to_lower : Text → Text) (content : Text)
    → tokenize to_lower content ≡ scan content (to_lower content) (length content) 0
unfolding tokenize
tokenize-scan to_lower [] = unfold scan in refl
tokenize-scan to_lower (c ∷ s) =
    merge-append [] (scan (c ∷ s) (to_lower (c ∷ s)) (length (c ∷ s)) 0)
      (scan-TakeTurns (c ∷ s) (to_lower (c ∷ s)) (length (c ∷ s)) 0)

-- Of two neighbours among the segments one is a tag: no two texts stand in a row.
pub tokenize-TakeTurns :
    (to_lower : Text → Text) (content : Text) → Chain TakeTurns (tokenize to_lower content)
tokenize-TakeTurns to_lower content =
    rw (tokenize-scan to_lower content)
      (scan-TakeTurns content (to_lower content) (length content) 0)

-- Every tag has the category of an entry of the table, whose keyword stands in the lower-case text
-- at the place of the tag, with no letter or digit before or behind it. Of all the entries whose
-- keywords stand there it has a longest one.
pub tokenize-IsSound :
    (to_lower : Text → Text) (content : Text)
    → All (IsSound content (to_lower content)) (tokenize to_lower content)
tokenize-IsSound to_lower content =
    rw (tokenize-scan to_lower content) (scan-IsSound content (to_lower content) (length content) 0)
