-- ===== src/Search/Ranking.antt =====
-- What `matchTools` returns: how many tools, which, and in what order.
use mathlib.Core.List.{Memᴰ}
use mathlib.Core.Path.{subst}
use startup.Common.{
  map, ap, ℕ, ◌+◌, ◌*◌, ◌≤◌, ◌<◌, ◌≡◌, refl, sym, ◌∙◌, Bool, true, false, ◌&&◌, List, [], ◌∷◌, ◌++◌,
  arith, ltb, if◌then◌else◌, length, take, All, All-map, All-mem, All-keep, All-keep_of, keep-All,
  Ordered-trivial, All-of_map, All-to_map, All-take, All-tabulate, Ordered, Ordered-take,
  Ordered-map, sort-All, sort-All_of, sort-Ordered, Text, includes, split, ltb→lt, length-map,
  length-take-le,
}
use startup.Marketplace.{Tool}
use startup.Search.Keywords.{keyword_category}
use startup.Search.Tokenize.{Segment, space}
use startup.Search.Match.{
  ScoredTool, Candidate, count_keywords, count_words, score_tool, outranks, ranked, catalog_entry,
  rescale, present,
}

-- What the ranking relies on of the floating-point division: a number is 100% of itself, and a
-- larger part is no smaller a percentage.
pub record IsPercent (percent : ℕ → ℕ → ℕ) : Type 0 where
  pub self : (m : ℕ) → 0 < m → percent m m ≡ 100
  pub mono : (a b m : ℕ) → a ≤ b → percent a m ≤ percent b m

either_tool : (b : Bool) (x y : Candidate) → x.tool ≡ y.tool → (if b then x else y).tool ≡ y.tool
either_tool true x y e = e
either_tool false x y e = refl

abbrev pub ByScore : Candidate → Candidate → Type 0
ByScore x y = y.score ≤ x.score

abbrev pub NotBetter : ScoredTool → ScoredTool → Type 0
NotBetter x y = y.score ≤ x.score

module _ (to_lower : Text → Text) where
  count_keywords-tool :
      (flat corpus : Text) (entries : List (Text × Text)) (c : Candidate)
      → (count_keywords to_lower flat corpus entries c).tool ≡ c.tool
  unfolding count_keywords
  count_keywords-tool flat corpus [] c = refl
  count_keywords-tool flat corpus (e ∷ rest) c =
      count_keywords-tool flat corpus rest _
      ∙ either_tool (includes e.0 flat && includes e.0 corpus)
          (record c { score = c.score + length (split space e.0) * 2; hits = c.hits ++ e.0 ∷ [] }) c
          refl

  count_words-tool :
      (corpus : Text) (words : List Text) (c : Candidate)
      → (count_words to_lower corpus words c).tool ≡ c.tool
  unfolding count_words
  count_words-tool corpus [] c = refl
  count_words-tool corpus (w ∷ rest) c =
      count_words-tool corpus rest _
      ∙ either_tool (includes w corpus) (record c { score = c.score + 1 }) c refl

  score_tool-tool :
      (segments : List Segment) (flat : Text) (tool : Tool)
      → (score_tool to_lower segments flat tool).tool ≡ tool
  unfolding score_tool
  score_tool-tool segments flat tool =
      count_words-tool _ _ _ ∙ count_keywords-tool flat _ keyword_category _

  module _ (segments : List Segment) (flat : Text) (tools : List Tool) where
    pub ranked-mem : All (λ c. Memᴰ c.tool tools) (ranked to_lower segments flat tools)
    unfolding ranked
    ranked-mem =
        sort-All outranks (λ c. Memᴰ c.tool tools) _
          (All-keep (λ c. Memᴰ c.tool tools) (λ c. ltb 0 c.score) _
            (All-to_map (score_tool to_lower segments flat) (λ c. Memᴰ c.tool tools) tools
              (All-map (λ t. Memᴰ t tools)
                (λ t. Memᴰ (score_tool to_lower segments flat t).tool tools)
                (λ t m.
                  subst (λ (u : Tool). Memᴰ u tools) (sym (score_tool-tool segments flat t)) m)
                tools (All-mem tools))))

    -- A candidate is what the scoring makes of its tool.
    pub ranked_self :
        All
          (λ c. c ≡ score_tool to_lower segments flat c.tool)
          (ranked to_lower segments flat tools)
    unfolding ranked
    ranked_self =
        let P : Candidate → Type 0 = λ c. c ≡ score_tool to_lower segments flat c.tool in
        sort-All outranks P _ (
          All-keep P (λ c. ltb 0 c.score) _
            (All-to_map (score_tool to_lower segments flat) P tools (
              All-tabulate (λ t. P (score_tool to_lower segments flat t))
                (λ t.
                  ap (score_tool to_lower segments flat) (sym (score_tool-tool segments flat t)))
                tools)))

    pub ranked-Ordered : Ordered ByScore (ranked to_lower segments flat tools)
    unfolding ranked
    ranked-Ordered =
        sort-Ordered outranks ByScore (λ x a h. ground arith) (λ x a h. ground arith)
          (λ x y z p q. omega arith) _

    -- What holds of the ranked candidates, and of a score of 0, holds of every tool of the catalog.
    pub ranked-All_of :
        (P : Candidate → Type 0)
        → ((c : Candidate) → ltb 0 c.score ≡ false → P c)
        → All P (ranked to_lower segments flat tools)
        → All (λ t. P (score_tool to_lower segments flat t)) tools
    unfolding ranked
    ranked-All_of P zero_score h =
        All-of_map (score_tool to_lower segments flat) P tools
          (All-keep_of P (λ c. ltb 0 c.score) _ zero_score (sort-All_of outranks P _ h))

    pub ranked-pos : All (λ c. 0 < c.score) (ranked to_lower segments flat tools)
    unfolding ranked
    ranked-pos =
        sort-All outranks (λ c. 0 < c.score) _
          (keep-All {A = Candidate} (λ c. 0 < c.score) (λ c. ltb 0 c.score)
            (λ c h. ltb→lt 0 c.score h) (map (score_tool to_lower segments flat) tools))

    module _ (percent : ℕ → ℕ → ℕ) where
      pub present-mem :
          (cs : List Candidate)
          → All (λ c. Memᴰ c.tool tools) cs
          → All (λ r. Memᴰ r.tool tools) (present to_lower percent flat tools cs)
      unfolding present
      present-mem [] h =
          All-to_map catalog_entry (λ r. Memᴰ r.tool tools) (take 6 tools)
            (All-take (λ t. Memᴰ t tools) 6 tools (All-mem tools))
      present-mem (best ∷ rest) h =
          All-to_map (rescale to_lower percent flat best.score) (λ r. Memᴰ r.tool tools)
            (take 8 (best ∷ rest)) (All-take (λ c. Memᴰ c.tool tools) 8 (best ∷ rest) h)

      pub length-present :
          (cs : List Candidate) → length (present to_lower percent flat tools cs) ≤ 8
      unfolding present
      length-present [] =
          omega (arith, length-map catalog_entry (take 6 tools), length-take-le 6 tools)
      length-present (best ∷ rest) = omega (
        arith,
        length-map (rescale to_lower percent flat best.score) (take 8 (best ∷ rest)),
        length-take-le 8 (best ∷ rest),
      )

      pub present-Ordered :
          (cs : List Candidate)
          → IsPercent percent
          → Ordered ByScore cs
          → Ordered NotBetter (present to_lower percent flat tools cs)
      unfolding present
      present-Ordered [] p h =
          Ordered-map catalog_entry (λ x y. Unit {0}) NotBetter (λ x y _. omega arith)
            (take 6 tools) (Ordered-trivial (take 6 tools))
      present-Ordered (best ∷ rest) p h =
          Ordered-map (rescale to_lower percent flat best.score) ByScore NotBetter
            (λ x y le. p.mono y.score x.score best.score le) (take 8 (best ∷ rest))
            (Ordered-take ByScore 8 (best ∷ rest) h)
