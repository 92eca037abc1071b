-- ===== src/Search/Match.antt =====
-- `matchTools` and `generateFit` of apps/web/src/lib/nlpSearch.ts. Two parameters: `toLowerCase`,
-- and `percent score max`, the floating-point `Math.round((score / max) * 100)`.
use startup.Common.{
  ℕ, ◌+◌, ◌*◌, Bool, false, ◌&&◌, ◌||◌, Option, some, List, [], ◌∷◌, ◌++◌, map, ltb, ◌==◌,
  if◌then◌else◌, length, take, keep, Text, codes, is_blank, trim, includes, join, split,
  split_spaces, replace_char, contains, sort,
}
use startup.Marketplace.{
  Tool, ToolCategory, nlp, computer_vision, data_analysis, automation, generation, other,
  category_name,
}
use startup.Search.Keywords.{keyword_category}
use startup.Search.Tokenize.{Segment, SegmentType, tag, segments_to_text, space}

pub record ScoredTool : Type 0 where
  pub tool : Tool
  pub score : ℕ
  pub fit : Text
  pub hits : List Text

-- `CATEGORY_LABELS`
unfoldable pub category_label : ToolCategory → Text
category_label nlp = codes "NLP"
category_label computer_vision = codes "Computer Vision"
category_label data_analysis = codes "Data Analysis"
category_label automation = codes "Automation"
category_label generation = codes "Generation"
category_label other = codes "Other"

any_of : Text → List Text → Bool
any_of h [] = false
any_of h (part ∷ parts) = includes part h || any_of h parts

-- The first of the hits decides the sentence.
unfoldable pub fit_for_hit : (Text → Text) → Tool → Text → Text → Text
unfolding any_of
fit_for_hit to_lower tool query h =
    if includes (codes "summar") h
    then tool.name ++ codes " summarizes your content and surfaces key points on demand."
    else if includes (codes "translat") h
    then tool.name ++ codes " handles language translation for your content pipeline."
    else if includes (codes "sentiment") h
    then tool.name ++ codes " classifies the sentiment and tone of your text inputs."
    else if any_of h (codes "image" ∷ codes "vision" ∷ codes "detect" ∷ codes "visual" ∷ [])
    then tool.name
      ++ (codes " provides "
          ++ (to_lower (category_label tool.category)
              ++ codes " capabilities for your visual data pipeline."))
    else if any_of h (codes "automate" ∷ codes "workflow" ∷ codes "pipeline" ∷ [])
    then tool.name
      ++ (codes " automates your "
          ++ ((if includes (codes "pipeline") query then codes "pipeline" else codes "workflow")
              ++ codes " with a single API call."))
    else if any_of h (codes "generat" ∷ codes "create" ∷ codes "write" ∷ [])
    then tool.name
      ++ (codes " generates "
          ++ (to_lower (category_label tool.category)
              ++ codes " content on demand for your use case."))
    else if any_of h (codes "analyz" ∷ codes "data" ∷ codes "forecast" ∷ codes "insight" ∷ [])
    then tool.name ++ codes " analyzes your data and surfaces actionable insights via a simple API."
    else if any_of h (codes "nlp" ∷ codes "language" ∷ codes "text" ∷ codes "llm" ∷ [])
    then tool.name ++ codes " processes natural language and fits your text analysis requirements."
    else tool.name
      ++ (codes " matches your " ++ (h ++ codes " requirements — integrate it in one API call."))

unfoldable pub generate_fit : (Text → Text) → Tool → Text → List Text → Text
generate_fit to_lower tool query [] =
    tool.name
    ++ (codes " is a " ++ (category_label tool.category ++ codes " tool available in the catalog."))
generate_fit to_lower tool query (h ∷ hits) = fit_for_hit to_lower tool query h

-- The categories of the tags; an empty one counts as none.
add_cat : SegmentType → Option Text → List Text → List Text
add_cat tag (some cat) cats = if is_blank cat then cats else cat ∷ cats
add_cat _ _ cats = cats

unfoldable pub tag_cats : List Segment → List Text
unfolding add_cat
tag_cats [] = []
tag_cats (s ∷ rest) = add_cat s.type s.cat (tag_cats rest)

-- A tool with what the search found in it.
pub record Candidate : Type 0 where
  pub tool : Tool
  pub score : ℕ
  pub hits : List Text

abbrev pub catalog_entry : Tool → ScoredTool
catalog_entry tool = record {
  tool = tool;
  score = 0;
  fit = codes "Available in the Hackmarket catalog.";
  hits = [];
}

-- A later candidate moves in front of an earlier one.
abbrev pub outranks : Candidate → Candidate → Bool
outranks y x =
    ltb x.score y.score || x.score == y.score && ltb x.tool.total_requests y.tool.total_requests

module _ (to_lower : Text → Text) where
  -- What is searched of a tool.
  unfoldable pub corpus_of : Tool → Text
  corpus_of tool = join (codes " ") (
      to_lower tool.name
      ∷ to_lower tool.tagline
      ∷ to_lower tool.description
      ∷ to_lower (replace_char b'_' space (category_name tool.category))
      ∷ [])

  -- The loop over the table: two points for each word of a keyword that both texts hold.
  unfoldable pub count_keywords : Text → Text → List (Text × Text) → Candidate → Candidate
  count_keywords flat corpus [] c = c
  count_keywords flat corpus (entry ∷ rest) c = count_keywords flat corpus rest (
      if includes entry.0 flat && includes entry.0 corpus
      then record c {
        score = c.score + length (split space entry.0) * 2;
        hits = c.hits ++ entry.0 ∷ [];
      }
      else c)

  -- The loop over the words: one point for each word of more than two units.
  unfoldable pub count_words : Text → List Text → Candidate → Candidate
  count_words corpus [] c = c
  count_words corpus (w ∷ rest) c =
      count_words corpus rest (if includes w corpus then record c { score = c.score + 1 } else c)

  unfoldable pub score_tool : List Segment → Text → Tool → Candidate
  score_tool segments flat tool =
      let corpus = corpus_of tool in
      let base = if contains (tag_cats segments) (category_name tool.category) then 4 else 0 in
      count_words corpus (keep (λ w. ltb 2 (length w)) (split_spaces flat)) (
        count_keywords flat corpus keyword_category
          (record { tool = tool; score = base; hits = [] }))

  unfoldable pub ranked : List Segment → Text → List Tool → List Candidate
  ranked segments flat tools =
      sort outranks (keep (λ c. ltb 0 c.score) (map (score_tool segments flat) tools))

  module _ (percent : ℕ → ℕ → ℕ) where
    abbrev pub rescale : Text → ℕ → Candidate → ScoredTool
    rescale flat max c = record {
      tool = c.tool;
      score = percent c.score max;
      fit = generate_fit to_lower c.tool flat c.hits;
      hits = c.hits;
    }

    -- With no candidate the first six tools of the catalog, otherwise the eight best.
    unfoldable pub present : Text → List Tool → List Candidate → List ScoredTool
    present flat tools [] = map catalog_entry (take 6 tools)
    present flat tools (best ∷ rest) = map (rescale flat best.score) (take 8 (best ∷ rest))

    unfoldable pub match_tools : List Segment → List Tool → List ScoredTool
    match_tools segments tools =
        let flat = to_lower (segments_to_text segments) in
        if is_blank (trim flat) || length tools == 0
        then []
        else present flat tools (ranked segments flat tools)
