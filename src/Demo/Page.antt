-- ===== src/Demo/Page.antt =====
-- The page in which demos run: the button, the timer of the automatic run, which does not ask whether
-- a run is under way, and the answers.
use startup.Common.{
  ℕ, zero, suc, ◌+◌, Bool, true, false, ◌&&◌, Option, is_some, List, [], ◌∷◌, if◌then◌else◌, Text,
}
use startup.Api.Errors.{is_ok}
use startup.Demo.{Browser}
use startup.Demo.Payload.{Form}
use startup.Demo.Reply.{parse_response}
use startup.Demo.Session.{
  Session, Answer, answer, no_answer, Demo, Call, Faults, take_answer, begin_demo, press,
}

-- A page: its state, the number of calls that are under way, that of those that were served, and
-- whether the timer of the automatic run has fired.
pub record Page : Type 0 where
  pub session : Session
  pub under_way : ℕ
  pub served : ℕ
  pub ran_itself : Bool

abbrev pub opened : Session → Page
opened s = record { session = s; under_way = 0; served = 0; ran_itself = false }

abbrev pub one_if : Bool → ℕ
one_if b = if b then 1 else 0

module _ (js : Browser) (demo : Demo) (faults : Faults) where
  -- What can happen to the page, in any order: the button is pressed, the timer fires, or one of the
  -- calls under way is answered.
  pub data Event : Type 0 where
    pressed : (form : Form js) (request_id : Text) → Event
    timer_fired : (form : Form js) (request_id : Text) → Event
    answered : Answer → Event

  -- The answer is a success with a body that can be read.
  unfoldable pub is_served : Answer → Bool
  is_served (answer res elapsed_ms) = is_ok res && is_some (parse_response js res)
  is_served (no_answer message) = false

  -- A run that may have made a call.
  abbrev pub with_call : Session × Option Call → Page → Page
  with_call (s, call) p = record p { session = s; under_way = one_if (is_some call) + p.under_way }

  -- `autoRanRef` lets the timer be set once.
  unfoldable pub run_itself : Form js → Text → Page → Page
  run_itself form id p =
      if p.ran_itself
      then p
      else with_call (begin_demo js demo faults form id p.session) (record p { ran_itself = true })

  -- An answer comes to a call under way only.
  unfoldable pub take_one : Answer → ℕ → Page → Page
  take_one reply zero p = p
  take_one reply (suc n) p = record p {
    session = take_answer js demo faults reply p.session;
    under_way = n;
    served = one_if (is_served reply) + p.served;
  }

  unfoldable pub handle : Event → Page → Page
  handle (pressed form id) p = with_call (press js demo faults form id p.session) p
  handle (timer_fired form id) p = run_itself form id p
  handle (answered reply) p = take_one reply p.under_way p

  unfoldable pub run_all : Page → List Event → Page
  run_all p [] = p
  run_all p (e ∷ es) = run_all (handle e p) es
