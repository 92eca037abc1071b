-- ===== src/Demo/Session.antt =====
-- A run of a demo, up to its call and behind it, and the count of the session. The key of the session storage holds what these
-- functions write: a whole number, or nothing at first. The page runs in a browser, where there is a
-- `window`.
use startup.Common.{
  ℕ, zero, suc, ◌+◌, ◌-◌, Bool, true, false, not, ◌||◌, Option, none, some, List, [], ◌∷◌, ◌++◌,
  leb, if◌then◌else◌, ◌or_else◌, Text, codes, is_blank,
}
use startup.Json.{Json}
use startup.Env.{Variables, api_base, demo_api_key_of, gateway_base_url}
use startup.Api.Errors.{Response, is_ok}
use startup.Api.Request.{request_id_header}
use startup.Demo.{Browser}
use startup.Demo.Payload.{Form, build_payload}
use startup.Demo.Reply.{extract_error_message, parse_response}

abbrev pub session_limit : ℕ
session_limit = 10

pub record DemoResult : Type 0 where
  pub data_ : Json
  pub status : ℕ
  pub response_time_ms : ℕ
  pub request_id : Option Text

-- The state of the page, and what the session storage holds under its key.
pub record Session : Type 0 where
  pub result : Option DemoResult
  pub error : Option Text
  pub is_running : Bool
  pub calls_used : ℕ
  pub stored : Option ℕ

-- `Number(window.sessionStorage.getItem(STORAGE_KEY) ?? "0")`
unfoldable pub read_session_count : Session → ℕ
read_session_count s = s.stored or_else 0

unfoldable pub increment_session_count : Session → Session
increment_session_count s = record s { stored = some (read_session_count s + 1) }

-- `sessionRemaining <= 0`
unfoldable pub is_session_limited : Session → Bool
is_session_limited s = leb (session_limit - s.calls_used) 0

pub record Call : Type 0 where
  pub endpoint : Text
  pub headers : List (Text × Text)
  pub body : Text

-- How the `fetch` ends, with a body that is read whole, and the time that it takes; or it or the
-- reading of the body throws, with the message of an `Error`. A call whose body never ends has none.
pub data Answer : Type 0 where
  answer : Response → (elapsed_ms : ℕ) → Answer
  no_answer : Option Text → Answer

pub record Demo : Type 0 where
  pub env : Variables
  pub tool_slug : Text
  pub demo_endpoint : Option Text

unfoldable pub endpoint_of : Demo → Text
endpoint_of demo =
    demo.demo_endpoint
    or_else (if is_blank (demo_api_key_of demo.env)
        then api_base demo.env ++ (codes "/tools/" ++ (demo.tool_slug ++ codes "/demo"))
        else gateway_base_url demo.env ++ (codes "/tools/" ++ demo.tool_slug))

unfoldable pub headers_of : Demo → Text → List (Text × Text)
headers_of demo request_id =
    (codes "Content-Type", codes "application/json")
    ∷ (request_id_header, request_id)
    ∷ (if is_blank (demo_api_key_of demo.env)
        then []
        else (codes "X-API-Key", demo_api_key_of demo.env) ∷ [])

-- The state while the call is under way.
unfoldable pub started : Session → Session
started s = record s { is_running = true; error = none; result = none }

-- The catch block and the `finally`.
unfoldable pub thrown : Option Text → Session → Session
thrown message s = record s {
  error = some (message or_else codes "The demo request failed.");
  is_running = false;
}

-- What `JSON.parse` says of a text that is no JSON.
pub record Faults : Type 0 where
  pub syntax_error : Text

abbrev pub at_least_one : ℕ → ℕ
at_least_one zero = 1
at_least_one (suc n) = suc n

abbrev pub result_of : Json → Response → ℕ → DemoResult
result_of data_ res elapsed_ms = record {
  data_ = data_;
  status = res.status;
  response_time_ms = at_least_one elapsed_ms;
  request_id = res.request_id;
}

unfoldable pub counted : Session → Session
counted s =
    let later = increment_session_count s in record later { calls_used = read_session_count later }

module _ (js : Browser) (demo : Demo) (faults : Faults) where
  -- What follows a body that could be read.
  unfoldable pub finish : Response → ℕ → Json → Session → Session
  finish res elapsed_ms data_ s =
      if not (is_ok res)
      then record s {
        error = some (extract_error_message js data_ res.status);
        result = some (result_of data_ res elapsed_ms);
        is_running = false;
      }
      else record (counted s) { result = some (result_of data_ res elapsed_ms); is_running = false }

  unfoldable pub take_answer : Answer → Session → Session
  take_answer (no_answer message) s = thrown message s
  take_answer (answer res elapsed_ms) s = elim (parse_response js res) [
    | none ↦ thrown (some faults.syntax_error) s
    | some data_ ↦ finish res elapsed_ms data_ s
  ]

  -- `runDemo` up to its `await`, with the request ID that it draws: the state, and the call that it
  -- makes. The count of the render in which the run was made is that of the state.
  unfoldable pub begin_demo : Form js → Text → Session → Session × Option Call
  begin_demo form request_id s =
      if is_session_limited s
      then (
        record s {
          error = some (
              codes
                "You’ve used the 10 free demo calls for this session. Sign up to keep testing tools.");
        },
        none,
      )
      else (elim (build_payload js form) [
        | none ↦ (thrown (some faults.syntax_error) (started s), none)
        | some payload ↦ (
          started s,
          some (record {
            endpoint = endpoint_of demo;
            headers = headers_of demo request_id;
            body = js.stringify payload;
          }),
        )
      ])

  -- The button, which is disabled during a run and at the limit.
  unfoldable pub press : Form js → Text → Session → Session × Option Call
  press form request_id s =
      if s.is_running || is_session_limited s then (s, none) else begin_demo form request_id s
