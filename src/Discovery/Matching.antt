-- ===== src/Discovery/Matching.antt =====
-- `fetchAndMatch`: the tools for a query, from the first of three sources that has any.
use startup.Common.{
  ℕ, not, Option, none, some, List, [], ◌∷◌, ◌++◌, map, if◌then◌else◌, Text, codes, trim,
}
use startup.Json.{num, str}
use startup.Marketplace.{Tool}
use startup.Env.{allow_converter_catalog_fallback}
use startup.Api.Request.{build_query}
use startup.Search.Tokenize.{Segment, segments_to_text}
use startup.Search.Match.{ScoredTool, match_tools}
use startup.Discovery.{
  Match, Platform, ConverterReply, unreachable, refused, found, Server, Call, asked_discover,
  asked_list, asked_converter,
}
use startup.Discovery.Convert.{converter_to_tool}

module _ (js : Platform) where
  -- `Math.max(...scores, 1)`
  unfoldable pub max_score : List Match → ℕ
  max_score [] = js.double 1
  max_score (m ∷ ms) = js.max m.match_score (max_score ms)

  abbrev pub scored : ℕ → Match → ScoredTool
  scored best m = record {
    tool = m.tool;
    score = js.percent_of m.match_score best;
    fit = m.fit_line;
    hits = m.matched_keywords;
  }

  -- What is made of the answer of `/tools/discover`.
  unfoldable pub verified_of : Option (List Match) → List ScoredTool
  verified_of none = []
  verified_of (some matches) = map (scored (max_score matches)) matches

  unfoldable pub list_path : Text → Text
  list_path query =
      codes "/tools"
      ++ build_query js.encode js.number_text
          ((codes "search", some (str query)) ∷ (codes "limit", some (num (js.double 100))) ∷ [])

  unfoldable pub converter_query : Text → Text
  converter_query query = js.encode ((codes "q", query) ∷ (codes "limit", codes "100") ∷ [])

  -- The tools of the converter, `none` for an exception.
  unfoldable pub converted : ConverterReply → Option (List Tool)
  converted unreachable = none
  converted refused = some []
  converted (found tools total) = some (map (converter_to_tool js.to_lower) tools)

  -- The tools of the list, or of the converter, or `none` for an exception; and the calls.
  unfoldable pub listed_tools : Server → Text → Option (List Tool) × List Call
  listed_tools server query = elim (server.list (list_path query)) [
    | some result ↦ (some result.items, asked_list (list_path query) ∷ [])
    | none ↦
        if not (allow_converter_catalog_fallback js.env)
        then (none, asked_list (list_path query) ∷ [])
        else (
          converted (server.converter (converter_query query)),
          asked_list (list_path query) ∷ asked_converter (converter_query query) ∷ [],
        )
  ]

  unfoldable pub matched_of : List Segment → Option (List Tool) → List ScoredTool
  matched_of segs none = []
  matched_of segs (some []) = []
  matched_of segs (some (t ∷ ts)) = match_tools js.to_lower js.percent segs (t ∷ ts)

  -- The results are those of `/tools/discover`, if there are any.
  abbrev pub or_listed :
      Server → List Segment → Text → List ScoredTool → List ScoredTool × List Call
  or_listed server segs query [] =
      let (tools, calls) = listed_tools server query in (matched_of segs tools, calls)
  or_listed server segs query (r ∷ rs) = (r ∷ rs, [])

  -- The results, and the calls in their order.
  unfoldable pub fetch_and_match : Server → List Segment → List ScoredTool × List Call
  fetch_and_match server segs =
      let query = trim (segments_to_text segs) in
      let (results, calls) = or_listed server segs query (verified_of (server.discover query 12)) in
      (results, asked_discover query 12 ∷ calls)
