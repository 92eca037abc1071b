-- ===== src/Submit/Invariant.antt =====
-- The states that the page can reach, and the end of every analysis.
use startup.Common.{ℕ, ◌≤◌, ◌≡◌, refl, Bool, true, false, some, List, [], ◌∷◌, arith, is_some, Text}
use startup.Submission.{PricingModel}
use startup.Submit.{analyzing, review, CompletionMode, owned, preview, Listing, State, initial}
use startup.Submit.Flow.{
  Account, set_url, analyze, Settled, answered, refused, broken, settle, last_step, tick_step, Gate,
  show_review, open_gate, tick_gate, edit, add_stack, remove_stack, reset,
}
use startup.Submit.Requests.{Review, queued, previewed, failed, begin_submit, end_submit}

-- All that can happen to the page, in any order: what the visitor does, the two timers, and the
-- answers of the server.
pub data Event : Type 0 where
  typed_url : Text → Event
  analyzed : Account → Event
  settled : Settled → Event
  step_timer gate_timer : Event
  edited : (Listing → Listing) → Event
  typed_stack : Text → Event
  added_stack : Event
  removed_stack : Text → Event
  priced : PricingModel → Event
  typed_amount : Text → Event
  began_submit : Event
  ended_submit : Review → Event
  was_reset : Event

unfoldable pub handle : Gate → Event → State → State
handle js (typed_url v) s = set_url v s
handle js (analyzed account) s = (analyze account s).0
handle js (settled r) s = settle r s
handle js step_timer s = tick_step s
handle js gate_timer s = tick_gate js s
handle js (edited f) s = edit f s
handle js (typed_stack v) s = record s { stack_input = v }
handle js added_stack s = add_stack s
handle js (removed_stack v) s = remove_stack v s
handle js (priced m) s = record s { pricing_model = m }
handle js (typed_amount v) s = record s { amount = v }
handle js began_submit s = (begin_submit js.doubles s).0
handle js (ended_submit r) s = end_submit r s
handle js was_reset s = reset s

unfoldable pub run : Gate → State → List Event → State
run js s [] = s
run js s (e ∷ es) = run js (handle js e s) es

abbrev pub is_owned : CompletionMode → Bool
is_owned owned = true
is_owned preview = false

pub record Inv (s : State) : Type 0 where
  pub review_listed : s.phase ≡ review → is_some s.listing ≡ true
  pub step_bounded : (k : ℕ) → s.step ≡ some k → k ≤ last_step
  pub analyzing_stepped : s.phase ≡ analyzing → is_some s.step ≡ true
  pub owned_recorded : is_owned s.completion_mode ≡ is_some s.submission_record

initial-Inv : Inv initial
unfolding initial
initial-Inv = record {
  review_listed = λ h. cc;
  step_bounded = λ k h. cc;
  analyzing_stepped = λ h. cc;
  owned_recorded = refl;
}

handle-review_listed :
    (js : Gate) (e : Event) (s : State)
    → (s.phase ≡ review → is_some s.listing ≡ true)
    → (handle js e s).phase ≡ review
    → is_some (handle js e s).listing ≡ true
unfolding handle set_url analyze settle tick_step tick_gate open_gate show_review edit add_stack
    remove_stack begin_submit end_submit reset
handle-review_listed js (analyzed account) s v = ground arith
handle-review_listed js (settled (answered r)) s v = ground arith
handle-review_listed js (settled (refused m)) s v = ground arith
handle-review_listed js (settled broken) s v = ground arith
handle-review_listed js (ended_submit (queued r)) s v = ground arith
handle-review_listed js (ended_submit previewed) s v = ground arith
handle-review_listed js (ended_submit (failed m)) s v = ground arith
handle-review_listed js _ s v = ground arith

handle-step_bounded :
    (js : Gate) (e : Event) (s : State)
    → ((k : ℕ) → s.step ≡ some k → k ≤ last_step)
    → (k : ℕ) → (handle js e s).step ≡ some k
    → k ≤ last_step
unfolding handle set_url analyze settle tick_step tick_gate open_gate show_review edit add_stack
    remove_stack begin_submit end_submit reset
handle-step_bounded js (analyzed account) s v k = ground (arith, v k)
handle-step_bounded js (settled (answered r)) s v k = ground (arith, v k)
handle-step_bounded js (settled (refused m)) s v k = ground (arith, v k)
handle-step_bounded js (settled broken) s v k = ground (arith, v k)
handle-step_bounded js (ended_submit (queued r)) s v k = ground (arith, v k)
handle-step_bounded js (ended_submit previewed) s v k = ground (arith, v k)
handle-step_bounded js (ended_submit (failed m)) s v k = ground (arith, v k)
handle-step_bounded js _ s v k = ground (arith, v k)

handle-analyzing_stepped :
    (js : Gate) (e : Event) (s : State)
    → (s.phase ≡ analyzing → is_some s.step ≡ true)
    → (handle js e s).phase ≡ analyzing
    → is_some (handle js e s).step ≡ true
unfolding handle set_url analyze settle tick_step tick_gate open_gate show_review edit add_stack
    remove_stack begin_submit end_submit reset
handle-analyzing_stepped js (analyzed account) s v = ground arith
handle-analyzing_stepped js (settled (answered r)) s v = ground arith
handle-analyzing_stepped js (settled (refused m)) s v = ground arith
handle-analyzing_stepped js (settled broken) s v = ground arith
handle-analyzing_stepped js (ended_submit (queued r)) s v = ground arith
handle-analyzing_stepped js (ended_submit previewed) s v = ground arith
handle-analyzing_stepped js (ended_submit (failed m)) s v = ground arith
handle-analyzing_stepped js _ s v = ground arith

handle-owned_recorded :
    (js : Gate) (e : Event) (s : State)
    → is_owned s.completion_mode ≡ is_some s.submission_record
    → is_owned (handle js e s).completion_mode ≡ is_some (handle js e s).submission_record
unfolding handle set_url analyze settle tick_step tick_gate open_gate show_review edit add_stack
    remove_stack begin_submit end_submit reset
handle-owned_recorded js (analyzed account) s v = ground arith
handle-owned_recorded js (settled (answered r)) s v = ground arith
handle-owned_recorded js (settled (refused m)) s v = ground arith
handle-owned_recorded js (settled broken) s v = ground arith
handle-owned_recorded js (ended_submit (queued r)) s v = ground arith
handle-owned_recorded js (ended_submit previewed) s v = ground arith
handle-owned_recorded js (ended_submit (failed m)) s v = ground arith
handle-owned_recorded js _ s v = ground arith

-- Every event keeps the invariant.
handle-Inv : (js : Gate) (e : Event) (s : State) → Inv s → Inv (handle js e s)
handle-Inv js e s v = record {
  review_listed = handle-review_listed js e s v.review_listed;
  step_bounded = handle-step_bounded js e s v.step_bounded;
  analyzing_stepped = handle-analyzing_stepped js e s v.analyzing_stepped;
  owned_recorded = handle-owned_recorded js e s v.owned_recorded;
}

run_from-Inv : (js : Gate) (s : State) (es : List Event) → Inv s → Inv (run js s es)
unfolding run
run_from-Inv js s [] v = v
run_from-Inv js s (e ∷ es) v = run_from-Inv js (handle js e s) es (handle-Inv js e s v)

-- After any events in any order, the page is in the phase `review` only with a listing, its step is
-- at most the last one and is there while it analyses, and it shows a submission as owned exactly if
-- it has a record of it.
pub run-Inv : (js : Gate) (es : List Event) → Inv (run js initial es)
run-Inv js es = run_from-Inv js initial es initial-Inv
