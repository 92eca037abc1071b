-- ===== src/Submit/Ending.antt =====
-- How an analysis ends, whenever the answer of the server comes, and that it waits if nothing is sent.
use mathlib.Core.Option
use mathlib.Core.Path.{subst}
use startup.Access.Verify.{TokenReply, token, no_token}
use startup.Common.{
  sym, trim, Bool, not, ◌&&◌, Option, is_some, ℕ, zero, suc, ◌+◌, ◌≤◌, ◌<◌, ◌≡◌, refl, ap, ◌∙◌,
  true, false, none, some, [], ◌∷◌, arith, lt→ltb, Text, is_blank, codes, truthy,
}
use startup.Submit.{input, analyzing, review, State, validate_github_url}
use startup.Submit.Flow.{
  Account, awaited_token, AnalysisCall, analysis_call, analyze, Settled, answered, refused, broken,
  settle, last_step, tick_step, listing_of, Gate, show_review, open_gate, tick_gate,
}

unfoldable pub ticks : ℕ → State → State
ticks zero s = s
ticks (suc n) s = ticks n (tick_step s)

-- The state of an analysis at a step.
abbrev at_step : State → ℕ → State
at_step s k = record s { step = some k }

tick-at_step :
    (s : State) (k : ℕ)
    → s.phase ≡ analyzing
    → k < last_step
    → tick_step (at_step s k) ≡ at_step s (k + 1)
unfolding tick_step
tick-at_step s k h lt = rw h (rw (lt→ltb k last_step lt))

ticks-at_step :
    (n k : ℕ) (s : State)
    → s.phase ≡ analyzing
    → n + k ≤ last_step
    → ticks n (at_step s k) ≡ at_step s (n + k)
unfolding ticks
ticks-at_step zero k s h le = ap (at_step s) {x = k} {y = zero + k} (omega arith)
ticks-at_step (suc n) k s h le =
    ap (ticks n) (tick-at_step s k h (omega arith))
    ∙ ticks-at_step n (k + 1) s h (omega arith)
    ∙ ap (at_step s) {x = n + (k + 1)} {y = suc n + k} (omega arith)

-- How an answer leaves the phase.
abbrev pub Leaves : (Text → Text) → Settled → State → Type 0
Leaves to_lower (answered res) s = (s.phase ≡ review) × (s.listing ≡ some (listing_of to_lower res))
Leaves to_lower (refused message) s =
    (s.phase ≡ input) × (is_blank s.url_error ≡ false) × (s.step ≡ none)
Leaves to_lower broken s = (s.phase ≡ input) × (is_blank s.url_error ≡ false) × (s.step ≡ none)

-- The state in which an analysis begins.
abbrev started : State → State
started s = record s {
  url_error = [];
  analysis_error = [];
  submit_error = [];
  api_response = none;
  api_ready = false;
  phase = analyzing;
  step = some 0;
}

analyze-started :
    (account : Account) (s : State)
    → is_blank (validate_github_url s.url) ≡ true
    → (analyze account s).0 ≡ at_step (started s) 0
unfolding analyze
analyze-started account s h = rw h refl

settle-at_step : (r : Settled) (s : State) (k : ℕ) → settle r (at_step s k) ≡ at_step (settle r s) k
unfolding settle
settle-at_step (answered res) s k = refl
settle-at_step (refused message) s k = refl
settle-at_step broken s k = refl

settle-phase : (r : Settled) (s : State) → (settle r s).phase ≡ s.phase
unfolding settle
settle-phase (answered res) s = refl
settle-phase (refused message) s = refl
settle-phase broken s = refl

tick_gate-Leaves :
    (js : Gate) (r : Settled) (s : State)
    → Leaves js.to_lower r (tick_gate js (at_step (settle r (started s)) last_step))
unfolding tick_gate settle open_gate show_review truthy codes
tick_gate-Leaves js (answered res) s = (refl, refl)
tick_gate-Leaves js (refused []) s = (refl, refl, refl)
tick_gate-Leaves js (refused (c ∷ message)) s = (refl, refl, refl)
tick_gate-Leaves js broken s = (refl, refl, refl)

-- The page analyses, and nothing has come of a request.
pub record IsWaiting (s : State) : Type 0 where
  pub phase : s.phase ≡ analyzing
  pub api_ready : s.api_ready ≡ false

tick_gate-waits : (js : Gate) (s : State) → s.api_ready ≡ false → tick_gate js s ≡ s
unfolding tick_gate
tick_gate-waits js s h = ground arith

tick_step-ready : (s : State) → (tick_step s).api_ready ≡ s.api_ready
unfolding tick_step
tick_step-ready s = ground arith

tick_step-phase : (s : State) → (tick_step s).phase ≡ s.phase
unfolding tick_step
tick_step-phase s = ground arith

ticks-IsWaiting :
    (n : ℕ) (s : State) → s.phase ≡ analyzing → s.api_ready ≡ false → IsWaiting (ticks n s)
unfolding ticks
ticks-IsWaiting zero s p r = record { phase = p; api_ready = r }
ticks-IsWaiting (suc n) s p r =
    ticks-IsWaiting n (tick_step s) (tick_step-phase s ∙ p) (tick_step-ready s ∙ r)

analyze-Leaves :
    (js : Gate) (account : Account) (s : State) (r : Settled) (before after : ℕ)
    → is_blank (validate_github_url s.url) ≡ true
    → after + before ≡ last_step
    → Leaves js.to_lower r
        (tick_gate js (ticks after (settle r (ticks before (analyze account s).0))))
analyze-Leaves js account s r before after h total =
    let begun : ticks before (analyze account s).0 ≡ at_step (started s) (before + 0) =
      ap (ticks before) (analyze-started account s h)
      ∙ ticks-at_step before 0 (started s) refl (omega arith) in
    let answered_at : settle r (ticks before (analyze account s).0)
        ≡ at_step (settle r (started s)) (before + 0) =
      ap (settle r) begun ∙ settle-at_step r (started s) (before + 0) in
    let over : ticks after (settle r (ticks before (analyze account s).0))
        ≡ at_step (settle r (started s)) last_step =
      ap (ticks after) answered_at
      ∙ ticks-at_step after (before + 0) (settle r (started s)) (settle-phase r (started s))
          (omega arith)
      ∙ ap (at_step (settle r (started s))) {x = after + (before + 0)} {y = last_step}
          (omega arith) in
    rw over (tick_gate-Leaves js r s)

-- How an analysis goes on by what is sent: a request is for the URL that was entered, and it is
-- answered among the ticks; without one, the page waits for ever.
abbrev pub Course : Gate → Settled → ℕ → ℕ → State × Option AnalysisCall → Type 0
Course js r before after (s, some call) =
    (call.github_url ≡ trim s.url)
    × Leaves js.to_lower r (tick_gate js (ticks after (settle r (ticks before s))))
Course js r before after (s, none) = (n : ℕ) → IsWaiting (tick_gate js (ticks n s))

Course-by :
    (js : Gate) (account : Account) (s : State) (r : Settled) (before after : ℕ)
    → is_blank (validate_github_url s.url) ≡ true
    → after + before ≡ last_step
    → (given : Option (Option Text))
    → Course js r before after ((analyze account s).0, Option.map (analysis_call s.url) given)
Course-by js account s r before after h total (some given) = (
  ap (λ t. trim t.url) (sym (analyze-started account s h)),
  analyze-Leaves js account s r before after h total,
)
Course-by js account s r before after h total none = λ n.
    let waiting : IsWaiting (ticks n (analyze account s).0) =
      rw (analyze-started account s h) (ticks-IsWaiting n (at_step (started s) 0) refl refl) in
    rw (tick_gate-waits js (ticks n (analyze account s).0) waiting.api_ready) waiting

analyze-sent :
    (account : Account) (s : State)
    → is_blank (validate_github_url s.url) ≡ true
    → (analyze account s).1 ≡ Option.map (analysis_call s.url) (awaited_token account)
unfolding analyze
analyze-sent account s h = rw h refl

-- `getToken` is rejected.
abbrev pub is_refused : TokenReply → Bool
is_refused (token given) = false
is_refused (no_token message) = true

is_some-awaited_token :
    (url : Text) (is_signed_in : Bool) (reply : TokenReply)
    → is_some (
        Option.map
          (analysis_call url)
          (awaited_token (record { is_signed_in = is_signed_in; token = reply })))
      ≡ not (is_signed_in && is_refused reply)
unfolding awaited_token
is_some-awaited_token url false reply = refl
is_some-awaited_token url true (token given) = refl
is_some-awaited_token url true (no_token message) = refl

-- An analysis of a URL that passes the check is sent, with that URL trimmed, unless the account is
-- signed in and `getToken` is rejected. If it is sent and answered, it ends with the four ticks of the
-- animation and one of the gate, behind whichever of the four ticks the answer comes: an answer leads
-- to the phase `review` with the listing that it holds, and an error back to the phase `input` with a
-- message. If it is not sent, the page stays in the phase `analyzing` after any ticks.
pub analysis-Leaves :
    (js : Gate) (account : Account) (s : State) (r : Settled) (before after : ℕ)
    → is_blank (validate_github_url s.url) ≡ true
    → after + before ≡ last_step
    → (is_some (analyze account s).1 ≡ not (account.is_signed_in && is_refused account.token))
      × Course js r before after (analyze account s)
analysis-Leaves js account s r before after h total = (
  ap is_some (analyze-sent account s h)
      ∙ is_some-awaited_token s.url account.is_signed_in account.token,
  subst (λ (sent : Option AnalysisCall). Course js r before after ((analyze account s).0, sent))
      (sym (analyze-sent account s h))
      (Course-by js account s r before after h total (awaited_token account)),
)
