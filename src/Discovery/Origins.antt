-- ===== src/Discovery/Origins.antt =====
-- Which tools the search can find.
use startup.Common.{
  List, [], ◌∷◌, ◌++◌, map, Option, none, some, All, All-map, All-to_map, All-of_map, All-mem,
  Option-cases, Bool-cases, inl, inr, Text, trim,
}
use mathlib.Core.List.{Memᴰ}
use mathlib.Core.List.Memᴰ
use startup.Marketplace.{Tool, ToolListResponse}
use startup.Env.{allow_converter_catalog_fallback}
use startup.Search.Tokenize.{Segment, segments_to_text}
use startup.Search.Match.{ScoredTool}
use startup.Search.Results.{match_tools-mem}
use startup.Discovery.{Match, Platform, Server}
use startup.Discovery.Matching.{
  max_score, scored, verified_of, list_path, converter_query, converted, listed_tools, matched_of,
  or_listed, fetch_and_match,
}

abbrev pub tools_of : Option (List Match) → List Tool
tools_of none = []
tools_of (some matches) = map (λ (m : Match). m.tool) matches

abbrev pub items_of : Option ToolListResponse → List Tool
items_of none = []
items_of (some result) = result.items

abbrev pub these : Option (List Tool) → List Tool
these none = []
these (some tools) = tools

abbrev pub AreFrom : List Tool → List ScoredTool → Type 0
AreFrom tools found = All (λ r. Memᴰ r.tool tools) found

widen :
    (tools more : List Tool)
    → ((t : Tool) → Memᴰ t tools → Memᴰ t more)
    → (found : List ScoredTool) → AreFrom tools found
    → AreFrom more found
widen tools more f found h =
    All-map (λ (r : ScoredTool). Memᴰ r.tool tools) (λ r. Memᴰ r.tool more) (λ r m. f r.tool m)
      found h

module _ (js : Platform) (server : Server) where
  verified_of-AreFrom :
      (answer : Option (List Match)) → AreFrom (tools_of answer) (verified_of js answer)
  unfolding verified_of
  verified_of-AreFrom none = tt
  verified_of-AreFrom (some matches) =
      let tools = map (λ (m : Match). m.tool) matches in
      All-to_map (scored js (max_score js matches)) (λ r. Memᴰ r.tool tools) matches
        (All-of_map (λ (m : Match). m.tool) (λ t. Memᴰ t tools) matches (All-mem tools))

  matched_of-AreFrom :
      (segs : List Segment) (tools : Option (List Tool))
      → AreFrom (these tools) (matched_of js segs tools)
  unfolding matched_of
  matched_of-AreFrom segs none = tt
  matched_of-AreFrom segs (some []) = tt
  matched_of-AreFrom segs (some (t ∷ ts)) = (match_tools-mem js.to_lower js.percent segs (t ∷ ts)).1

  -- The tools that the list and the converter offer for a query.
  abbrev pub listed : Text → List Tool
  listed query =
      items_of (server.list (list_path js query))
      ++ these (converted js (server.converter (converter_query js query)))

  listed_tools-listed :
      (query : Text) (t : Tool)
      → Memᴰ t (these (listed_tools js server query).0)
      → Memᴰ t (listed query)
  unfolding listed_tools
  listed_tools-listed query t = elim (Option-cases (server.list (list_path js query))) [
    | inr (result, e) ↦ rw (e, listed_tools) (λ m. Memᴰ.append_left _ m)
    | inl e ↦ elim (Bool-cases (allow_converter_catalog_fallback js.env)) [
      | inl on ↦ rw (e, listed_tools) (rw (on, listed_tools) (λ m. m))
      | inr off ↦ rw (e, listed_tools) (rw (off, listed_tools) (λ m. absurd (Memᴰ.not-nil m)))
    ]
  ]

  -- The tools that the three sources offer for a query.
  abbrev pub offered : Text → List Tool
  offered query = tools_of (server.discover query 12) ++ listed query

  or_listed-AreFrom :
      (segs : List Segment) (query : Text) (found : List ScoredTool)
      → AreFrom (tools_of (server.discover query 12)) found
      → AreFrom (offered query) (or_listed js server segs query found).0
  or_listed-AreFrom segs query [] h =
      widen _ (offered query)
        (λ t m.
          Memᴰ.append_right (tools_of (server.discover query 12)) (listed_tools-listed query t m))
        _ (matched_of-AreFrom segs (listed_tools js server query).0)
  or_listed-AreFrom segs query (r ∷ rs) h =
      widen _ (offered query) (λ t m. Memᴰ.append_left (listed query) m) (r ∷ rs) h

  pub fetch_and_match-AreFrom :
      (segs : List Segment)
      → AreFrom (offered (trim (segments_to_text segs))) (fetch_and_match js server segs).0
  unfolding fetch_and_match
  fetch_and_match-AreFrom segs =
      or_listed-AreFrom segs _ _
        (verified_of-AreFrom (server.discover (trim (segments_to_text segs)) 12))
