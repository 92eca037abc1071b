-- ===== src/Discovery/FlowLaws.antt =====
-- A search ends, and what its results are.
use startup.Common.{
  ℕ, zero, suc, ◌+◌, ◌≤◌, ◌≡◌, ◌⊎◌, refl, true, some, List, ◌∷◌, arith, leb, if◌then◌else◌, inl, ap,
  ◌∙◌,
}
use startup.Search.Tokenize.{Segment}
use startup.Search.Match.{ScoredTool}
use startup.Discovery.Flow.{thinking, results, Search, think_steps, submit, end_match, tick, finish}

-- The timer of the steps runs a number of times.
pub ticks : ℕ → Search → Search
ticks zero s = s
ticks (suc n) s = ticks n (tick s)

-- A search that has come to a step, with all else as it was.
abbrev IsAt : ℕ → Search → Search → Type 0
IsAt n s t =
    (t.phase ≡ thinking)
    × (t.step ≡ some n)
    × (t.submitted_segments ≡ s.submitted_segments)
    × (t.api_ready ≡ s.api_ready)
    × (t.matched ≡ s.matched)

tick-IsAt :
    (n : ℕ) (s : Search)
    → s.phase ≡ thinking
    → s.step ≡ some n
    → IsAt (if leb think_steps n then n else n + 1) s (tick s)
unfolding tick
tick-IsAt n s thinks at_n = ground arith

-- The step that is reached is the last one, or as far on as there were ticks.
ticks-IsAt :
    (k n : ℕ) (s : Search)
    → s.phase ≡ thinking
    → s.step ≡ some n
    → n ≤ think_steps
    → (m : ℕ) × (m ≤ think_steps) × ((n + k ≤ m) ⊎ (m ≡ think_steps)) × IsAt m s (ticks k s)
unfolding ticks
ticks-IsAt zero n s thinks at_n low = (n, low, inl (omega arith), (thinks, at_n, refl, refl, refl))
ticks-IsAt (suc k) n s thinks at_n low =
    let (thinks', at', same, ready, shown) = tick-IsAt n s thinks at_n in
    let (m, low', far, (t, a, same', ready', shown')) =
      ticks-IsAt k (if leb think_steps n then n else n + 1) (tick s) thinks' at' (ground arith) in
    (m, low', ground arith, (t, a, same' ∙ same, ready' ∙ ready, shown' ∙ shown))

finish-results :
    (s : Search)
    → s.phase ≡ thinking
    → s.step ≡ some think_steps
    → s.api_ready ≡ true
    → finish s ≡ record s { phase = results }
unfolding finish
finish-results s thinks at_end ready =
    rw (thinks, finish) (rw (at_end, finish) (rw (ready, finish) refl))

-- A search ends: when its segments are submitted, an answer comes, and four steps of the animation
-- have passed, some before the answer and some behind it, then the end of the animation shows the
-- results of that answer, beside the segments that were submitted. This holds of any answer, also of
-- one to an earlier query, which is not told apart.
pub submit-shown :
    (seg : Segment) (segs : List Segment) (s : Search) (answer : List ScoredTool) (before after : ℕ)
    → think_steps ≤ before + after
    → let t = finish (ticks after (end_match answer (ticks before (submit (seg ∷ segs) s)))) in
      (t.phase ≡ results) × (t.matched ≡ answer) × (t.submitted_segments ≡ seg ∷ segs)
unfolding submit end_match
submit-shown seg segs s answer before after enough =
    let first = submit (seg ∷ segs) s in
    let (n, low, far, (thinks, at_n, same, ready, shown)) =
      ticks-IsAt before 0 first refl refl (omega arith) in
    let (m, low', far', (thinks', at_m, same', ready', shown')) =
      ticks-IsAt after n (end_match answer (ticks before first)) thinks at_n low in
    let at_end : m ≡ think_steps = ground arith in
    let done = finish-results _ thinks' (at_m ∙ ap some at_end) ready' in
    (
      ap (λ (t : Search). t.phase) done,
      ap (λ (t : Search). t.matched) done ∙ shown',
      ap (λ (t : Search). t.submitted_segments) done ∙ same' ∙ same,
    )
