-- ===== src/Discovery/Scores.antt =====
-- The percentages of the results.
use startup.Common.{
  ℕ, ◌≤◌, ◌≡◌, refl, List, [], ◌∷◌, Option, none, some, All, All-map, All-to_map, arith, inl, inr,
  Ordered, trim,
}
use startup.Marketplace.{Tool}
use startup.Search.Tokenize.{Segment, segments_to_text}
use startup.Search.Match.{ScoredTool, match_tools}
use startup.Search.Ranking.{IsPercent, NotBetter}
use startup.Search.Results.{match_tools-Ordered, match_tools-best}
use startup.Discovery.{Match, Platform, Server}
use startup.Discovery.Origins.{AreFrom, offered, fetch_and_match-AreFrom}
use startup.Discovery.Matching.{
  max_score, scored, verified_of, matched_of, or_listed, fetch_and_match,
}

-- What is assumed of doubles. A score is one that is finite and not negative; 1 is one, and so is the
-- `Math.max` of two, which is not less than either. A score has at most 100% of another that is not
-- less, if that is not less than 1 either.
pub record IsScale (js : Platform) : Type 1 where
  pub IsScore : ℕ → Type 0
  pub NotMore : ℕ → ℕ → Type 0
  pub one : IsScore (js.double 1)
  pub greater : (a b : ℕ) → IsScore a → IsScore b → IsScore (js.max a b)
  pub same : (a : ℕ) → IsScore a → NotMore a a
  pub trans : (a b c : ℕ) → NotMore a b → NotMore b c → NotMore a c
  pub left : (a b : ℕ) → IsScore a → IsScore b → NotMore a (js.max a b)
  pub right : (a b : ℕ) → IsScore a → IsScore b → NotMore b (js.max a b)
  pub bounded :
      (a m : ℕ)
      → IsScore a
      → IsScore m
      → NotMore (js.double 1) m
      → NotMore a m
      → js.percent_of a m ≤ 100

-- The scores of an answer of `/tools/discover` are finite and not negative.
abbrev pub AreScored : {js : Platform} → IsScale js → Option (List Match) → Type 0
AreScored scale none = Unit
AreScored scale (some matches) = All (λ m. scale.IsScore m.match_score) matches

abbrev pub IsBounded : ScoredTool → Type 0
IsBounded r = r.score ≤ 100

module _ (js : Platform) (scale : IsScale js) where
  -- A match that has a score, of which the best is not less.
  abbrev IsBelow : ℕ → Match → Type 0
  IsBelow best m = scale.IsScore m.match_score × scale.NotMore m.match_score best

  -- A score that is not less than 1.
  abbrev IsBest : ℕ → Type 0
  IsBest best = scale.IsScore best × scale.NotMore (js.double 1) best

  max_score-IsBelow :
      (matches : List Match)
      → AreScored scale (some matches)
      → IsBest (max_score js matches) × All (IsBelow (max_score js matches)) matches
  unfolding max_score
  max_score-IsBelow [] h = ((scale.one, scale.same _ scale.one), tt)
  max_score-IsBelow (m ∷ ms) (score, scores) =
      let ((later, one), below) = max_score-IsBelow ms scores in
      let more = scale.right m.match_score (max_score js ms) score later in
      (
        (scale.greater _ _ score later, scale.trans _ _ _ one more),
        (
          (score, scale.left m.match_score (max_score js ms) score later),
          All-map (IsBelow (max_score js ms)) (IsBelow (js.max m.match_score (max_score js ms)))
              (λ x h. (h.0, scale.trans _ _ _ h.1 more)) ms below,
        ),
      )

  verified_of-IsBounded :
      (answer : Option (List Match))
      → AreScored scale answer
      → All IsBounded (verified_of js answer)
  unfolding verified_of
  verified_of-IsBounded none h = tt
  verified_of-IsBounded (some matches) h =
      let best = max_score js matches in
      let ((score, one), below) = max_score-IsBelow matches h in
      All-to_map (scored js best) IsBounded matches (
        All-map (IsBelow best) (λ m. js.percent_of m.match_score best ≤ 100)
          (λ m k. scale.bounded m.match_score best k.0 score one k.1) matches below)

module _ (js : Platform) (p : IsPercent js.percent) (segs : List Segment) where
  results-IsBounded :
      (tools : List Tool) (rs : List ScoredTool)
      → match_tools js.to_lower js.percent segs tools ≡ rs
      → All IsBounded rs
  results-IsBounded tools [] e = tt
  results-IsBounded tools (r ∷ rs) e =
      let low : IsBounded r = elim (match_tools-best js.to_lower js.percent segs tools r rs p e) [
        | inl (full, most) ↦ omega (arith, full)
        | inr (zero, rest) ↦ omega (arith, zero)
      ] in
      let ordered : Ordered NotBetter (r ∷ rs) =
        rw e at (match_tools-Ordered js.to_lower js.percent segs tools p) in
      (low, All-map (NotBetter r) IsBounded (λ x h. omega (arith, h, low)) rs ordered.0)

  matched_of-IsBounded : (tools : Option (List Tool)) → All IsBounded (matched_of js segs tools)
  unfolding matched_of
  matched_of-IsBounded none = tt
  matched_of-IsBounded (some []) = tt
  matched_of-IsBounded (some (t ∷ ts)) = results-IsBounded (t ∷ ts) _ refl

  or_listed-IsBounded :
      (server : Server) (query : List ℕ) (found : List ScoredTool)
      → All IsBounded found
      → All IsBounded (or_listed js server segs query found).0
  or_listed-IsBounded server query [] h = matched_of-IsBounded _
  or_listed-IsBounded server query (r ∷ rs) h = h

-- The search shows tools only that `/tools/discover`, the list or the converter has offered for the
-- trimmed query, whichever of them it takes its results from, and each with at most 100%, if the
-- scores that `/tools/discover` answers are finite and not negative. What is assumed of doubles and of
-- the division is `IsScale` and `IsPercent`.
pub fetch_and_match_lem :
    (js : Platform) (server : Server) (segs : List Segment) (scale : IsScale js)
    → IsPercent js.percent
    → AreScored scale (server.discover (trim (segments_to_text segs)) 12)
    → AreFrom (offered js server (trim (segments_to_text segs))) (fetch_and_match js server segs).0
      × All IsBounded (fetch_and_match js server segs).0
unfolding fetch_and_match
fetch_and_match_lem js server segs scale p scores = (
  fetch_and_match-AreFrom js server segs,
  or_listed-IsBounded js p segs server _ _ (verified_of-IsBounded js scale _ scores),
)
