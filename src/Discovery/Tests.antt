-- ===== src/Discovery/Tests.antt =====
-- The search and the catalogue at concrete inputs.
use startup.Common.{
  ℕ, ◌≡◌, ◌≤◌, none, some, List, [], ◌∷◌, trim, leb, if◌then◌else◌, codes, ascii_lower, All, arith,
}
use startup.Marketplace.{Tool, nlp}
use startup.Marketplace.Samples.{sample_tool}
use startup.Search.Tokenize.{Segment, text_segment, segments_to_text}
use startup.Search.Match.{ScoredTool}
use startup.Search.Samples.{rounded, rounded-IsPercent, rounded-le}
use startup.Discovery.{Platform, refused, Server, Match}
use startup.Discovery.Matching.{fetch_and_match}
use startup.Discovery.Scores.{IsScale, IsBounded, fetch_and_match_lem}
use startup.Discovery.Origins.{AreFrom, offered}
use startup.Discovery.Flow.{results, Search, initial, submit, end_match, finish}
use startup.Discovery.FlowLaws.{ticks, submit-shown}

-- The doubles of natural numbers stand for themselves.
abbrev platform : Platform
platform = record {
  env = record {
    api_url = none;
    app_url = none;
    converter_url = some (codes "http://localhost:8080");
    clerk_publishable_key = none;
    demo_api_key = none;
    node_env = some (codes "production");
    next_phase = none;
  };
  to_lower = ascii_lower;
  encode = λ pairs. codes "q";
  number_text = λ n. codes "7";
  double = λ n. n;
  max = λ a b. if leb a b then b else a;
  percent_of = rounded;
  percent = rounded;
}

platform-IsScale : IsScale platform
platform-IsScale = record {
  IsScore = λ a. Unit;
  NotMore = λ a b. a ≤ b;
  one = tt;
  greater = λ a b p q. tt;
  same = λ a p. omega arith;
  trans = λ a b c p q. omega (arith, p, q);
  left = λ a b p q. ground arith;
  right = λ a b p q. ground arith;
  bounded = λ a m p q positive le. rounded-le a m le;
}

abbrev tool : Tool
tool = sample_tool "Digest" "a summarizer of text" nlp 3

abbrev found_match : ℕ → Match
found_match score = record {
  tool = tool;
  fit_line = codes "Digest fits.";
  match_score = score;
  matched_keywords = [];
}

abbrev server : Server
server = record {
  discover = λ query limit. some (found_match 3 ∷ found_match 4 ∷ []);
  list = λ path. none;
  converter = λ query. refused;
}

abbrev segments : List Segment
segments = text_segment (codes "summarize text") ∷ []

fetch_and_match_lem_example :
    AreFrom
      (offered platform server (trim (segments_to_text segments)))
      (fetch_and_match platform server segments).0
    × All IsBounded (fetch_and_match platform server segments).0
unfolding platform-IsScale
fetch_and_match_lem_example =
    fetch_and_match_lem platform server segments platform-IsScale rounded-IsPercent (tt, (tt, tt))

abbrev answer : List ScoredTool
answer = record { tool = tool; score = 75; fit = codes "Digest fits."; hits = [] } ∷ []

abbrev shown : Search
shown = finish (ticks 3 (end_match answer (ticks 1 (submit segments initial))))

submit-shown_example :
    (shown.phase ≡ results) × (shown.matched ≡ answer) × (shown.submitted_segments ≡ segments)
submit-shown_example =
    submit-shown (text_segment (codes "summarize text")) [] initial answer 1 3 (omega arith)
