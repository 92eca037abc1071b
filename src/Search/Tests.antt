-- ===== src/Search/Tests.antt =====
-- Runs of the search, and its theorems at concrete inputs.
use startup.Common.{
  ◌⊎◌, join, includes, contains, text_eq, trim, split, split_spaces, replace_char, ◌≤◌, ◌≡◌, refl,
  List, [], ◌∷◌, All, Text, codes, ascii_lower, sort, is_alnum, starts_with,
}
use startup.Marketplace.{category_name, Tool, nlp, generation}
use startup.Marketplace.Samples.{sample_tool}
use startup.Search.Keywords.{keyword_category}
use startup.Search.Tokenize.{
  Segment, text_segment, tag_segment, sorted, is_hit, first_hit, text_end, scan, push, append_last,
  merge, tokenize, segments_to_text,
}
use startup.Search.RoundTrip.{segments_to_text-tokenize}
use startup.Search.Tags.{IsSound, tokenize-IsSound}
use startup.Search.Match.{
  ScoredTool, score_tool, count_keywords, count_words, corpus_of, tag_cats, ranked, present,
  match_tools, generate_fit, fit_for_hit,
}
use startup.Search.Samples.{rounded, rounded-IsPercent}
use startup.Search.Results.{match_tools-best, points}

abbrev query : Text
query = codes "A Text summarizer"

tokenize-query :
    tokenize ascii_lower query
    ≡ text_segment (codes "A ")
      ∷ tag_segment (codes "Text") (codes "nlp")
      ∷ text_segment (codes " ")
      ∷ tag_segment (codes "summarizer") (codes "nlp")
      ∷ []
unfolding tokenize scan first_hit text_end sorted sort keyword_category is_hit merge push
    append_last codes ascii_lower starts_with is_alnum
tokenize-query = refl

segments_to_text-tokenize_example : segments_to_text (tokenize ascii_lower query) ≡ query
segments_to_text-tokenize_example = segments_to_text-tokenize ascii_lower query

tokenize-IsSound_example : All (IsSound query (ascii_lower query)) (tokenize ascii_lower query)
tokenize-IsSound_example = tokenize-IsSound ascii_lower query

abbrev catalog : List Tool
catalog =
    sample_tool "Writer" "drafts letters" generation 7
    ∷ sample_tool "Digest" "a summarizer of text" nlp 3
    ∷ []

abbrev segments : List Segment
segments = text_segment (codes "A ") ∷ tag_segment (codes "summarizer") (codes "nlp") ∷ []

abbrev digest_result : ScoredTool
digest_result = record {
  tool = sample_tool "Digest" "a summarizer of text" nlp 3;
  score = 100;
  fit = codes "Digest summarizes your content and surfaces key points on demand.";
  hits = codes "summarize" ∷ codes "summarizer" ∷ [];
}

match_tools_digest : match_tools ascii_lower rounded segments catalog ≡ digest_result ∷ []
unfolding match_tools present ranked sort score_tool count_keywords count_words corpus_of tag_cats
    generate_fit fit_for_hit keyword_category codes ascii_lower segments_to_text join includes
    contains trim split split_spaces replace_char category_name text_eq starts_with
match_tools_digest = refl

match_tools-best_example :
    ((digest_result.score ≡ 100)
      × All
          (λ t.
            points ascii_lower rounded segments catalog t
            ≤ points ascii_lower rounded segments catalog digest_result.tool)
          catalog)
    ⊎ ((digest_result.score ≡ 0)
        × All (λ t. points ascii_lower rounded segments catalog t ≡ 0) catalog)
match_tools-best_example =
    match_tools-best ascii_lower rounded segments catalog digest_result [] rounded-IsPercent
      match_tools_digest
