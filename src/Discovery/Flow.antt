-- ===== src/Discovery/Flow.antt =====
-- The search of the page: the query, the four steps of the animation, and the results; and the preview
-- that follows the visitor's typing.
use startup.Common.{
  ℕ, ◌+◌, Bool, true, false, not, ◌&&◌, Option, none, some, List, [], ◌∷◌, map, length, ltb, leb,
  if◌then◌else◌, Text, trim,
}
use startup.Marketplace.{Tool}
use startup.Search.Tokenize.{Segment}
use startup.Search.Match.{ScoredTool}
use startup.Discovery.{Match}

pub data Phase : Type 0 where
  input thinking results : Phase

-- An entry of the preview, whose score is that of the API.
pub record Preview : Type 0 where
  pub tool : Tool
  pub score : ℕ
  pub hits : List Text
  pub fit : Text

-- The `useState` variables of the search; a step of -1 is `none`. `typing` is the text whose timer
-- runs.
pub record Search : Type 0 where
  pub phase : Phase
  pub composer_segments : Option (List Segment)
  pub submitted_segments : List Segment
  pub step : Option ℕ
  pub matched : List ScoredTool
  pub api_ready : Bool
  pub live_preview : List Preview
  pub live_preview_total : ℕ
  pub live_query : Text
  pub typing : Option Text

unfoldable pub initial : Search
initial = record {
  phase = input;
  composer_segments = none;
  submitted_segments = [];
  step = none;
  matched = [];
  api_ready = false;
  live_preview = [];
  live_preview_total = 0;
  live_query = [];
  typing = none;
}

-- `THINK_STEPS.length`
abbrev pub think_steps : ℕ
think_steps = 4

abbrev pub is_thinking : Phase → Bool
is_thinking thinking = true
is_thinking _ = false

-- `submit`, behind which `fetchAndMatch` runs for the segments.
unfoldable pub submit : List Segment → Search → Search
submit [] s = s
submit (seg ∷ segs) s = record s {
  submitted_segments = seg ∷ segs;
  api_ready = false;
  step = some 0;
  phase = thinking;
}

-- `fetchAndMatch` at its end.
unfoldable pub end_match : List ScoredTool → Search → Search
end_match verified s = record s { matched = verified; api_ready = true }

-- The timer of a step, which is set up while the search has steps left.
unfoldable pub tick : Search → Search
tick s = elim s.step [
  | none ↦ if is_thinking s.phase then record s { step = some 0 } else s
  | some n ↦
      if is_thinking s.phase && not (leb think_steps n) then record s { step = some (n + 1) } else s
]

abbrev is_over : Option ℕ → Bool
is_over none = false
is_over (some n) = leb think_steps n

-- The timer of the end, which is set up behind the last step, when the answer is there.
unfoldable pub finish : Search → Search
finish s =
    if is_thinking s.phase && (is_over s.step && s.api_ready)
    then record s { phase = results }
    else s

unfoldable pub refine : Search → Search
refine s = record s { composer_segments = some s.submitted_segments; phase = input; step = none }

unfoldable pub start_fresh : Search → Search
start_fresh s = record s {
  composer_segments = some [];
  submitted_segments = [];
  phase = input;
  step = none;
}

-- `pickExample`, whose timer submits the segments later.
unfoldable pub pick_example : List Segment → Search → Search
pick_example segs s = record s { composer_segments = some segs }

-- `handleLiveChange`, up to its timer.
unfoldable pub handle_live_change : Text → Search → Search
handle_live_change text s =
    let q = trim text in
    if ltb (length q) 2
    then record s { live_query = q; live_preview = []; live_preview_total = 0; typing = none }
    else record s { live_query = q; typing = some q }

-- The timer, and the query that it sends.
unfoldable pub send_live : Search → Search × Option Text
send_live s = (record s { typing = none }, s.typing)

abbrev preview : Match → Preview
preview m = record {
  tool = m.tool;
  score = m.match_score;
  hits = m.matched_keywords;
  fit = m.fit_line;
}

-- Its answer, `none` for an exception.
unfoldable pub end_live : Option (List Match) → Search → Search
end_live none s = record s { live_preview = []; live_preview_total = 0 }
end_live (some matches) s = record s {
  live_preview = map preview matches;
  live_preview_total = length matches;
}

pub data Event : Type 0 where
  submitted : List Segment → Event
  match_ended : List ScoredTool → Event
  ticked finished refined started_fresh : Event
  example_picked : List Segment → Event
  typed : Text → Event
  live_sent : Event
  live_ended : Option (List Match) → Event

unfoldable pub handle : Event → Search → Search
handle (submitted segs) s = submit segs s
handle (match_ended verified) s = end_match verified s
handle ticked s = tick s
handle finished s = finish s
handle refined s = refine s
handle started_fresh s = start_fresh s
handle (example_picked segs) s = pick_example segs s
handle (typed text) s = handle_live_change text s
handle live_sent s = (send_live s).0
handle (live_ended answer) s = end_live answer s

unfoldable pub run : Search → List Event → Search
run s [] = s
run s (e ∷ es) = run (handle e s) es
