-- ===== src/Search/Results.antt =====
-- The promises of `matchTools` to the page that shows its results.
use mathlib.Core.List.{Memᴰ, head-eq_of_cons-eq, nil≢cons}
use startup.Common.{
  ℕ, ◌≤◌, ◌<◌, ◌≡◌, ◌⊎◌, refl, sym, ap, ◌∙◌, ◌||◌, List, [], ◌∷◌, arith, ◌==◌, length, take,
  Bool-cases, All, All-map, Ordered, Text, is_blank, trim, inl, inr, All-to_map, All-tabulate,
}
use startup.Marketplace.{Tool}
use startup.Search.Tokenize.{Segment, segments_to_text}
use startup.Search.Match.{
  ScoredTool, Candidate, score_tool, ranked, catalog_entry, rescale, present, match_tools,
}
use startup.Search.Ranking.{
  IsPercent, ByScore, NotBetter, ranked-mem, ranked-Ordered, ranked-All_of, ranked-pos, present-mem,
  length-present, present-Ordered, ranked_self,
}

module _ (to_lower : Text → Text) (percent : ℕ → ℕ → ℕ) (segments : List Segment)
    (tools : List Tool) where
  -- What holds of no result and of what the ranking presents holds of the results.
  results_cases :
      (P : List ScoredTool → Type 0)
      → P []
      → P (
          present to_lower percent
            (to_lower (segments_to_text segments))
            tools
            (ranked to_lower segments (to_lower (segments_to_text segments)) tools))
      → P (match_tools to_lower percent segments tools)
  unfolding match_tools
  results_cases P none_shown some_shown =
      elim (Bool-cases
        (is_blank (trim (to_lower (segments_to_text segments))) || length tools == 0)) [
          | inl e ↦ rw e none_shown
          | inr e ↦ rw e some_shown
        ]

  -- At most eight results are returned, and each is a tool of the catalog that was searched.
  pub match_tools-mem :
      (length (match_tools to_lower percent segments tools) ≤ 8)
      × All (λ r. Memᴰ r.tool tools) (match_tools to_lower percent segments tools)
  match_tools-mem =
      let flat = to_lower (segments_to_text segments) in
      (
        results_cases (λ rs. length rs ≤ 8) (omega arith)
            (length-present to_lower segments flat tools percent _),
        results_cases (All (λ r. Memᴰ r.tool tools)) tt (
            present-mem to_lower segments flat tools percent _
              (ranked-mem to_lower segments flat tools)),
      )

  -- The results stand in the order of their percentages, the best first.
  pub match_tools-Ordered :
      IsPercent percent → Ordered NotBetter (match_tools to_lower percent segments tools)
  match_tools-Ordered p =
      let flat = to_lower (segments_to_text segments) in
      results_cases (Ordered NotBetter) tt (
        present-Ordered to_lower segments flat tools percent _ p
          (ranked-Ordered to_lower segments flat tools))

  -- The points of a tool for this search.
  abbrev pub points : Tool → ℕ
  points t = (score_tool to_lower segments (to_lower (segments_to_text segments)) t).score

  best_of :
      (cs : List Candidate) (r : ScoredTool) (rs : List ScoredTool)
      → IsPercent percent
      → ranked to_lower segments (to_lower (segments_to_text segments)) tools ≡ cs
      → present to_lower percent (to_lower (segments_to_text segments)) tools cs ≡ r ∷ rs
      → ((r.score ≡ 100) × All (λ t. points t ≤ points r.tool) tools)
        ⊎ ((r.score ≡ 0) × All (λ t. points t ≡ 0) tools)
  unfolding present
  best_of [] r rs p e q =
      let flat = to_lower (segments_to_text segments) in
      inr (
        (rw q at (
            All-to_map catalog_entry (λ x. x.score ≡ 0) (take 6 tools)
              (All-tabulate (λ t. (catalog_entry t).score ≡ 0) (λ t. refl) (take 6 tools)))).0,
        ranked-All_of to_lower segments flat tools (λ c. c.score ≡ 0) (λ c h. ground arith)
            (rw e tt),
      )
  best_of (best ∷ rest) r rs p e q =
      let flat = to_lower (segments_to_text segments) in
      let same : rescale to_lower percent flat best.score best ≡ r = head-eq_of_cons-eq q in
      let pos : 0 < best.score = (rw e at (ranked-pos to_lower segments flat tools)).0 in
      let self : best ≡ score_tool to_lower segments flat best.tool =
        (rw e at (ranked_self to_lower segments flat tools)).0 in
      let below : All (ByScore best) rest =
        (rw e at (ranked-Ordered to_lower segments flat tools)).0 in
      let most : best.score ≡ points r.tool =
        ap (λ (c : Candidate). c.score) self ∙ ap (λ (x : ScoredTool). points x.tool) same in
      inl (
        ap (λ (x : ScoredTool). x.score) (sym same) ∙ p.self best.score pos,
        ranked-All_of to_lower segments flat tools (λ c. c.score ≤ points r.tool)
            (λ c h. ground arith)
            (rw e (
              omega arith,
              All-map (ByScore best) (λ c. c.score ≤ points r.tool) (λ c le. omega arith) rest
                  below,
            )),
      )

  -- The first result has 100% and the most points in the catalog, or it has 0% and no tool of the
  -- catalog has a point. The division is assumed to be one, `IsPercent`.
  pub match_tools-best :
      (r : ScoredTool) (rs : List ScoredTool)
      → IsPercent percent
      → match_tools to_lower percent segments tools ≡ r ∷ rs
      → ((r.score ≡ 100) × All (λ t. points t ≤ points r.tool) tools)
        ⊎ ((r.score ≡ 0) × All (λ t. points t ≡ 0) tools)
  unfolding match_tools
  match_tools-best r rs p q =
      elim (Bool-cases
        (is_blank (trim (to_lower (segments_to_text segments))) || length tools == 0)) [
          | inl e ↦ absurd (nil≢cons (rw e at q))
          | inr e ↦
              best_of (ranked to_lower segments (to_lower (segments_to_text segments)) tools) r rs p
                refl (rw e at q)
        ]
